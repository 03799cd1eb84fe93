-- ===== src/Outbound/Unsubmitted.antt =====
-- The steps of a send that submit nothing: the creation of the row and the archive.
use mail_gable.Base.{
  ℕ, suc, String, ◌≡◌, refl, ◌∙◌, true, false, Bool, List, [], ◌∷◌, ◌++◌, arith, map, leb, inl, inr,
  Bool-cases,
}
use mail_gable.Store.Tables.{AttachmentRow, Database, Message}
use mail_gable.Store.Effects.{Result, ok, err, ◌>>◌}
use mail_gable.Store.Inversion.{keeps-bind}
use mail_gable.Providers.{ProviderId, Outbox, Submission}
use mail_gable.Archive.{
  Faults, Upload, put_r2, delete_r2, delete_objects, delete_outgoing_attachments, put_all,
  insert_chunks, attach_rows, attachment_row, delete_quietly, archive_outgoing_attachments,
  conclude_archive, archive_outgoing,
}
use mail_gable.Outbound.Defs.{
  Call, SendPlan, create_message, insert_message, new_message, sends_in_hour,
}

module _ (f : Faults) where
  submissions-put_r2 : (key : String) (o : Outbox) → (put_r2 f key o).1.submissions ≡ o.submissions
  unfolding put_r2
  submissions-put_r2 key o = ground arith

  submissions-delete_r2 :
      (key : String) (o : Outbox) → (delete_r2 f key o).1.submissions ≡ o.submissions
  unfolding delete_r2
  submissions-delete_r2 key o = ground arith

  submissions-delete_quietly :
      (keys : List String) (o : Outbox) → (delete_quietly f keys o).submissions ≡ o.submissions
  unfolding delete_quietly
  submissions-delete_quietly [] o = refl
  submissions-delete_quietly (k ∷ ks) o =
      submissions-delete_quietly ks (delete_r2 f k o).1 ∙ submissions-delete_r2 k o

  submissions-delete_objects :
      (id : String) (rows : List AttachmentRow) (o : Outbox)
      → (delete_objects f id rows o).1.submissions ≡ o.submissions
  unfolding delete_objects delete_r2
  submissions-delete_objects id [] o = refl
  submissions-delete_objects id (a ∷ as') o = ground (
    arith,
    submissions-delete_objects id as' o,
    submissions-delete_objects id as' (delete_r2 f a.r2_object_key o).1,
  )

  submissions-put_all :
      (us : List Upload) (o : Outbox) → (put_all f us o).1.submissions ≡ o.submissions
  unfolding put_all
  submissions-put_all [] o = refl
  submissions-put_all (u ∷ us) o =
      submissions-put_all us (put_r2 f u.key o).1 ∙ submissions-put_r2 u.key o

  submissions-insert_chunks :
      (id : String) (n : ℕ) (us : List Upload) (o : Outbox)
      → (insert_chunks f id n us o).1.submissions ≡ o.submissions
  unfolding insert_chunks
  submissions-insert_chunks id n (a ∷ b ∷ c ∷ d ∷ e ∷ g ∷ h ∷ i ∷ rest) o = ground (
    arith,
    submissions-insert_chunks id (suc n) rest (record o {
      db = record o.db {
        attachments =
            o.db.attachments ++ map (attachment_row f id) (a ∷ b ∷ c ∷ d ∷ e ∷ g ∷ h ∷ i ∷ []);
      };
    }),
  )
  submissions-insert_chunks id n [] o = refl
  submissions-insert_chunks id n _ o = ground arith

  submissions-attach_rows :
      (us : List Upload) (r : Result (Unit {0}) × Outbox)
      → (attach_rows f us r).1.submissions ≡ r.1.submissions
  submissions-attach_rows us (ok _, o) = refl
  submissions-attach_rows us (err x, o) = submissions-delete_quietly (map (λ u. u.key) us) o

  module _ (was : List Submission) where
    abbrev Unsubmitted : Outbox → Type 0
    Unsubmitted o = o.submissions ≡ was

    stored :
        (id : String) (us : List Upload) (o : Outbox)
        → Unsubmitted o
        → Unsubmitted
            ((delete_outgoing_attachments f id >> archive_outgoing_attachments f id us) o).1
    unfolding delete_outgoing_attachments archive_outgoing_attachments
    stored id us o p =
        keeps-bind (delete_outgoing_attachments f id) _ Unsubmitted
          (λ s q.
            keeps-bind (delete_objects f id s.db.attachments) _ Unsubmitted
              (λ t e. submissions-delete_objects id s.db.attachments t ∙ e) (λ _ t e. e) s q)
          (λ _ s q.
            keeps-bind (put_all f us) _ Unsubmitted (λ t e. submissions-put_all us t ∙ e)
              (λ _ t e.
                submissions-attach_rows us (insert_chunks f id 0 us t)
                ∙ submissions-insert_chunks id 0 us t
                ∙ e)
              s q)
          o p

    concluded :
        (failed : Bool) (id raw_key : String) (now : ℕ) (o : Outbox)
        → Unsubmitted o
        → Unsubmitted (conclude_archive f failed id raw_key now o).1
    concluded true id raw_key now o p = submissions-delete_quietly (raw_key ∷ []) o ∙ p
    concluded false id raw_key now o p = p

    archived :
        (id raw_key : String) (us : List Upload) (now : ℕ) (o : Outbox)
        → Unsubmitted o
        → Unsubmitted (archive_outgoing f id us raw_key now o).1
    unfolding archive_outgoing
    archived id raw_key us now o p =
        keeps-bind
          (delete_outgoing_attachments f id
            >> archive_outgoing_attachments f id us
            >> put_r2 f raw_key)
          _ Unsubmitted
          (λ s q.
            keeps-bind (delete_outgoing_attachments f id >> archive_outgoing_attachments f id us) _
              Unsubmitted (stored id us) (λ _ t e. submissions-put_r2 raw_key t ∙ e) s q)
          (λ _ s q. concluded f.update_fails id raw_key now s q) o p

  -- archiveOutgoing submits nothing, whether it fails or not.
  pub submissions-archive_outgoing :
      (id raw_key : String) (us : List Upload) (now : ℕ) (o : Outbox)
      → (archive_outgoing f id us raw_key now o).1.submissions ≡ o.submissions
  submissions-archive_outgoing id raw_key us now o = archived o.submissions id raw_key us now o refl

submissions-insert_message :
    (m : Message) (key : String) (o : Outbox)
    → (insert_message m key o).1.submissions ≡ o.submissions
unfolding insert_message
submissions-insert_message m key o = ground arith

-- The creation of a row submits nothing.
pub submissions-create_message :
    (c : Call) (plan : SendPlan) (key : String) (p : ProviderId) (others : Database → Database)
    (o : Outbox)
    → (create_message c plan key p others o).1.submissions ≡ o.submissions
unfolding create_message
submissions-create_message c plan key p others o =
    elim (Bool-cases (leb 20 (sends_in_hour c.admin_id c.now o.db))) [
      | inl limited ↦ rw limited refl
      | inr free ↦ rw free (
          keeps-bind (insert_message (new_message c plan key p) key) _
            (λ (s : Outbox). s.submissions ≡ o.submissions)
            (λ s e. submissions-insert_message (new_message c plan key p) key s ∙ e) (λ _ s e. e) _
            refl)
    ]
