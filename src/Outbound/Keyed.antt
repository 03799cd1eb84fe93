-- ===== src/Outbound/Keyed.antt =====
-- The row of an idempotency key, through the steps of a send.
use mail_gable.Base.{
  ℕ, String, Bool, ◌≡◌, refl, ◌∙◌, ap, true, false, some, List, [], ◌∷◌, ◌++◌, ◌==◌, inl, inr, suc,
  find, update, arith, Bool-cases, find-update, if◌then◌else◌, map,
}
use mail_gable.Store.Status.{Status}
use mail_gable.Store.Tables.{Message, Database, AttachmentRow}
use mail_gable.Store.Effects.{Result, ok, err, ◌>>◌}
use mail_gable.Store.Inversion.{keeps-bind}
use mail_gable.Providers.{Outbox}
use mail_gable.Archive.{
  Faults, Upload, put_r2, delete_r2, delete_quietly, delete_objects, delete_outgoing_attachments,
  put_all, insert_chunks, attach_rows, attachment_row, attach_rows, archive_outgoing_attachments,
  mark_archived, conclude_archive, archive_outgoing,
}
use mail_gable.Outbound.Defs.{has_key}

-- The key is the one of a message with this id, this hash of the request, and such a status.
abbrev pub Keyed : String → String → String → (Status → Bool) → List Message → Type 0
Keyed key id hash good messages =
    (m : Message) × (find (has_key key) messages ≡ some m)
    × (m.message_id ≡ id)
    × (m.request_hash ≡ hash)
    × (good m.status ≡ true)

-- An update that changes neither a message's id nor its key nor its hash.
abbrev pub KeepsIdentity : (Message → Message) → Type 0
KeepsIdentity f =
    (m : Message)
    → ((f m).idempotency_key ≡ m.idempotency_key)
      × ((f m).message_id ≡ m.message_id)
      × ((f m).request_hash ≡ m.request_hash)

module _ (key id hash : String) where
  pub Keyed-update :
      (good better : Status → Bool) (q : Message → Bool) (f : Message → Message) (ms : List Message)
      → KeepsIdentity f
      → ((m : Message)
          → m.message_id ≡ id
          → good m.status ≡ true
          → better (if q m then f m else m).status ≡ true)
      → Keyed key id hash good ms
      → Keyed key id hash better (update q f ms)
  Keyed-update good better q f ms same status (m, found, named, hashed, is_good) = (
    if q m then f m else m,
    find-update (has_key key) q f ms keeps_key ∙ rw found refl,
    keeps_id (q m),
    keeps_hash (q m),
    status m named is_good,
  )
    where
      keeps_key : (a : Message) → has_key key (if q a then f a else a) ≡ has_key key a
      keeps_key a = elim (Bool-cases (q a)) [
        | inl yes' ↦ rw (yes', (same a).0) refl
        | inr no' ↦ rw no' refl
      ]

      keeps_id : (b : Bool) → (if b then f m else m).message_id ≡ id
      keeps_id true = (same m).1 ∙ named
      keeps_id false = named

      keeps_hash : (b : Bool) → (if b then f m else m).request_hash ≡ hash
      keeps_hash true = (same m).2 ∙ hashed
      keeps_hash false = hashed

  -- An update that leaves the status too keeps the row, for any condition on its status.
  pub Keyed-update_rest :
      (good : Status → Bool) (q : Message → Bool) (f : Message → Message) (ms : List Message)
      → KeepsIdentity f
      → ((m : Message) → (f m).status ≡ m.status)
      → Keyed key id hash good ms
      → Keyed key id hash good (update q f ms)
  Keyed-update_rest good q f ms same keeps =
      Keyed-update good good q f ms same (λ m _ is_good. status (q m) m is_good)
    where
      status :
          (b : Bool) (m : Message)
          → good m.status ≡ true
          → good (if b then f m else m).status ≡ true
      status true m h = ap good (keeps m) ∙ h
      status false m h = h

  pub Keyed-same :
      (good : Status → Bool) (ms ms' : List Message)
      → ms' ≡ ms
      → Keyed key id hash good ms
      → Keyed key id hash good ms'
  Keyed-same good ms ms' e (m, found, named, hashed, is_good) =
      (m, rw e found, named, hashed, is_good)

-- The messages that the archive step leaves, up to the UPDATE of the row.
module _ (f : Faults) where
  db-delete_quietly : (keys : List String) (o : Outbox) → (delete_quietly f keys o).db ≡ o.db
  unfolding delete_quietly delete_r2
  db-delete_quietly [] o = refl
  db-delete_quietly (k ∷ ks) o = db-delete_quietly ks (delete_r2 f k o).1 ∙ ground arith

  db-delete_objects :
      (id : String) (rows : List AttachmentRow) (o : Outbox)
      → (delete_objects f id rows o).1.db ≡ o.db
  unfolding delete_objects delete_r2
  db-delete_objects id [] o = refl
  db-delete_objects id (a ∷ as') o = ground (
    arith,
    db-delete_objects id as' o,
    db-delete_objects id as' (delete_r2 f a.r2_object_key o).1,
  )

  db-put_all : (us : List Upload) (o : Outbox) → (put_all f us o).1.db ≡ o.db
  unfolding put_all put_r2
  db-put_all [] o = refl
  db-put_all (u ∷ us) o = db-put_all us (put_r2 f u.key o).1 ∙ ground arith

  messages-insert_chunks :
      (id : String) (n : ℕ) (us : List Upload) (o : Outbox)
      → (insert_chunks f id n us o).1.db.messages ≡ o.db.messages
  unfolding insert_chunks
  messages-insert_chunks id n (a ∷ b ∷ c ∷ d ∷ e ∷ g ∷ h ∷ i ∷ rest) o = ground (
    arith,
    messages-insert_chunks id (suc n) rest (record o {
      db = record o.db {
        attachments =
            o.db.attachments ++ map (attachment_row f id) (a ∷ b ∷ c ∷ d ∷ e ∷ g ∷ h ∷ i ∷ []);
      };
    }),
  )
  messages-insert_chunks id n [] o = refl
  messages-insert_chunks id n _ o = ground arith

  messages-attach_rows :
      (id : String) (us : List Upload) (o : Outbox) (r : Result (Unit {0}) × Outbox)
      → r.1.db.messages ≡ o.db.messages
      → (attach_rows f us r).1.db.messages ≡ o.db.messages
  messages-attach_rows id us o (ok _, o') e = e
  messages-attach_rows id us o (err x, o') e =
      ap (λ (db : Database). db.messages) (db-delete_quietly (map (λ u. u.key) us) o') ∙ e

  abbrev SameMessages : List Message → Outbox → Type 0
  SameMessages ms o = o.db.messages ≡ ms

  put_all-SameMessages :
      (us : List Upload) (ms : List Message) (o : Outbox)
      → SameMessages ms o
      → SameMessages ms (put_all f us o).1
  put_all-SameMessages us ms o p = ap (λ (db : Database). db.messages) (db-put_all us o) ∙ p

  archive_outgoing_attachments-SameMessages :
      (id : String) (us : List Upload) (ms : List Message) (o : Outbox)
      → SameMessages ms o
      → SameMessages ms (archive_outgoing_attachments f id us o).1
  unfolding archive_outgoing_attachments
  archive_outgoing_attachments-SameMessages id us ms o p =
      keeps-bind (put_all f us) _ (SameMessages ms) (put_all-SameMessages us ms)
        (λ _ o' q.
          messages-attach_rows id us o' (insert_chunks f id 0 us o')
            (messages-insert_chunks id 0 us o')
          ∙ q)
        o p

  delete_outgoing_attachments-SameMessages :
      (id : String) (ms : List Message) (o : Outbox)
      → SameMessages ms o
      → SameMessages ms (delete_outgoing_attachments f id o).1
  unfolding delete_outgoing_attachments
  delete_outgoing_attachments-SameMessages id ms o p =
      keeps-bind (delete_objects f id o.db.attachments) _ (SameMessages ms)
        (λ o' q. ap (λ (db : Database). db.messages) (db-delete_objects id o.db.attachments o') ∙ q)
        (λ _ o' q. q) o p

  module _ (key id hash : String) (good : Status → Bool) where
    abbrev IsKeyed : Outbox → Type 0
    IsKeyed o = Keyed key id hash good o.db.messages

    put_r2-IsKeyed : (raw_key : String) (o : Outbox) → IsKeyed o → IsKeyed (put_r2 f raw_key o).1
    unfolding put_r2
    put_r2-IsKeyed raw_key o = Keyed-same key id hash good _ _ (put_raw o)
      where
        put_raw : (o : Outbox) → (put_r2 f raw_key o).1.db.messages ≡ o.db.messages
        put_raw o = ground arith

    mark_archived-IsKeyed :
        (row_id raw_key : String) (now : ℕ) (o : Outbox)
        → IsKeyed o
        → IsKeyed (record o { db = mark_archived f row_id raw_key now o.db })
    unfolding mark_archived
    mark_archived-IsKeyed row_id raw_key now o =
        Keyed-update_rest key id hash good (λ m. m.message_id == row_id) _ o.db.messages
          (λ m. (refl, refl, refl)) (λ m. refl)

    store_outgoing-IsKeyed :
        (row_id : String) (us : List Upload) (o : Outbox)
        → IsKeyed o
        → IsKeyed
            ((delete_outgoing_attachments f row_id >> archive_outgoing_attachments f row_id us) o).1
    store_outgoing-IsKeyed row_id us o p =
        keeps-bind (delete_outgoing_attachments f row_id) _ IsKeyed
          (λ o q.
            Keyed-same key id hash good _ _
              (delete_outgoing_attachments-SameMessages row_id o.db.messages o refl) q)
          (λ _ o q.
            Keyed-same key id hash good _ _
              (archive_outgoing_attachments-SameMessages row_id us o.db.messages o refl) q)
          o p

    -- archiveOutgoing keeps the row of the key, for any condition on its status.
    pub archive_outgoing-Keyed :
        (row_id raw_key : String) (us : List Upload) (now : ℕ) (o : Outbox)
        → IsKeyed o
        → IsKeyed (archive_outgoing f row_id us raw_key now o).1
    unfolding archive_outgoing
    archive_outgoing-Keyed row_id raw_key us now o p =
        keeps-bind
          (delete_outgoing_attachments f row_id
            >> archive_outgoing_attachments f row_id us
            >> put_r2 f raw_key)
          _ IsKeyed
          (λ o q.
            keeps-bind
              (delete_outgoing_attachments f row_id >> archive_outgoing_attachments f row_id us) _
              IsKeyed (store_outgoing-IsKeyed row_id us) (λ _ o q. put_r2-IsKeyed raw_key o q) o q)
          (λ _ o q. last f.update_fails o q) o p
      where
        last :
            (b : Bool) (o : Outbox)
            → IsKeyed o
            → IsKeyed (conclude_archive f b row_id raw_key now o).1
        last true o q =
            Keyed-same key id hash good _ _
              (ap (λ (db : Database). db.messages) (db-delete_quietly (raw_key ∷ []) o)) q
        last false o q = mark_archived-IsKeyed row_id raw_key now o q
