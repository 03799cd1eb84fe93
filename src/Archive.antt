-- ===== src/Archive.antt =====
-- src/mail/archive.ts (putR2) and the outgoing half of src/mail/attachments.ts: what is written to
-- the R2 bucket and the attachment table before a message is sent.
use mail_gable.Base.{
  ℕ, suc, String, Bool, Option, some, List, [], ◌∷◌, ◌++◌, ◌==◌, update, delete, if◌then◌else◌, map,
}
use mail_gable.Store.Tables.{AttachmentRow, Database, archived}
use mail_gable.Store.Effects.{Result, app_error, thrown, archive_unavailable, ok, err, Exec, ◌>>◌}
use mail_gable.Providers.{Outbox}

-- Which accesses to the storage fail: a put or a delete of a key, the INSERT of the n-th chunk of
-- attachment rows, the UPDATE of the message row.
pub record Faults : Type 0 where
  pub put_fails : String → Bool
  pub delete_fails : String → Bool
  pub insert_fails : ℕ → Bool
  pub update_fails : Bool

-- An attachment of the message that is sent, with the id and the object path chosen for it.
pub record Upload : Type 0 where
  pub attachment_id : String
  pub key : String
  pub size : ℕ

module _ (f : Faults) where
  unfoldable pub put_r2 : String → Exec Outbox (Unit {0})
  put_r2 key o =
      if f.put_fails key
      then (err (app_error 503 archive_unavailable), o)
      else (ok tt, record o { bucket = key ∷ delete (λ k. k == key) o.bucket })

  unfoldable pub delete_r2 : String → Exec Outbox (Unit {0})
  delete_r2 key o =
      if f.delete_fails key
      then (err (thrown "R2Error"), o)
      else (ok tt, record o { bucket = delete (λ k. k == key) o.bucket })

  -- .catch(() => undefined)
  unfoldable pub delete_quietly : List String → Outbox → Outbox
  delete_quietly [] o = o
  delete_quietly (k ∷ ks) o = delete_quietly ks (delete_r2 k o).1

  -- the loop of deleteOutgoingAttachments
  unfoldable pub delete_objects : String → List AttachmentRow → Exec Outbox (Unit {0})
  delete_objects id [] o = (ok tt, o)
  delete_objects id (a ∷ as') o =
      let rest = delete_objects id as' in
      if a.message_id == id
      then (if a.r2_object_key == "" then rest o else (delete_r2 a.r2_object_key >> rest) o)
      else rest o

  abbrev pub without_attachments : String → Outbox → Outbox
  without_attachments id o = record o {
    db = record o.db { attachments = delete (λ a. a.message_id == id) o.db.attachments };
  }

  unfoldable pub delete_outgoing_attachments : String → Exec Outbox (Unit {0})
  unfolding delete_objects
  delete_outgoing_attachments id o =
      (delete_objects id o.db.attachments >> λ o'. (ok tt, without_attachments id o')) o

  -- Promise.all of the puts: each is tried, and the first failure is the result
  unfoldable pub put_all : List Upload → Exec Outbox (Unit {0})
  put_all [] o = (ok tt, o)
  put_all (u ∷ us) o =
      let (first, o') = put_r2 u.key o in
      let (rest, o'') = put_all us o' in (elim first [ ok _ ↦ rest | err e ↦ err e ], o'')

  abbrev pub attachment_row : String → Upload → AttachmentRow
  attachment_row id u = record {
    attachment_id = u.attachment_id;
    message_id = id;
    r2_object_key = u.key;
    size = u.size;
  }

  -- pending.slice(index, index + 8) for each index, the rows of a chunk in one INSERT
  unfoldable pub insert_chunks : String → ℕ → List Upload → Exec Outbox (Unit {0})
  insert_chunks id n (a ∷ b ∷ c ∷ d ∷ e ∷ g ∷ h ∷ i ∷ rest) o =
      let later = insert_chunks id (suc n) rest in
      if f.insert_fails n
      then (err (thrown "D1Error"), o)
      else later (record o {
        db = record o.db {
          attachments =
              o.db.attachments ++ map (attachment_row id) (a ∷ b ∷ c ∷ d ∷ e ∷ g ∷ h ∷ i ∷ []);
        };
      })
  insert_chunks id n [] o = (ok tt, o)
  insert_chunks id n us o = if f.insert_fails n then (err (thrown "D1Error"), o) else (
    ok tt,
    record o { db = record o.db { attachments = o.db.attachments ++ map (attachment_row id) us } },
  )

  -- a failed INSERT takes the objects back
  abbrev pub attach_rows : List Upload → Result (Unit {0}) × Outbox → Result (Unit {0}) × Outbox
  attach_rows uploads (ok _, o) = (ok tt, o)
  attach_rows uploads (err e, o) = (err e, delete_quietly (map (λ u. u.key) uploads) o)

  unfoldable pub archive_outgoing_attachments : String → List Upload → Exec Outbox (Unit {0})
  archive_outgoing_attachments id uploads =
      put_all uploads >> λ o. attach_rows uploads (insert_chunks id 0 uploads o)

  -- the UPDATE of archiveOutgoing
  unfoldable pub mark_archived : String → String → ℕ → Database → Database
  mark_archived id raw_key now db = record db {
    messages =
        update (λ m. m.message_id == id)
          (λ m. record m {
            raw_r2_key = some raw_key;
            archive_status = archived;
            last_error = Option.none;
            updated_at = now;
          })
          db.messages;
  }

  -- the end of archiveOutgoing: a failed UPDATE takes the raw message back
  abbrev pub conclude_archive : Bool → String → String → ℕ → Exec Outbox (Unit {0})
  conclude_archive failed id raw_key now o =
      if failed
      then (err (thrown "D1Error"), delete_quietly (raw_key ∷ []) o)
      else (ok tt, record o { db = mark_archived id raw_key now o.db })

  -- archiveOutgoing, behind the rendering of the raw message, whose object path is `raw_key`
  unfoldable pub archive_outgoing : String → List Upload → String → ℕ → Exec Outbox (Unit {0})
  archive_outgoing id uploads raw_key now =
      delete_outgoing_attachments id
      >> archive_outgoing_attachments id uploads
      >> put_r2 raw_key
      >> conclude_archive f.update_fails id raw_key now
