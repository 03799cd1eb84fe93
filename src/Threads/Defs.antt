-- ===== src/Threads/Defs.antt =====
-- src/mail/threads.ts: the queries and updates. A function takes the reading of the clock.
use text.Mathlib.Text.{find?}
use mail_gable.Base.{
  ℕ, String, Bool, true, false, Option, none, some, List, [], ◌∷◌, map, ◌==◌, ltb, not, ◌&&◌, ◌||◌,
  if◌then◌else◌, or_else, coalesce, is_some, find, where_rows, update, delete, count, any, trim,
  first_chars, take, ◌++◌, is_space,
}
use mail_gable.Headers.{is_id_char, is_code}
use mail_gable.Store.Tables.{
  Message, Thread, Direction, open_thread, incoming, outgoing, AttachmentRow, Database,
}

abbrev pub is_incoming : Direction → Bool
is_incoming incoming = true
is_incoming _ = false

abbrev pub is_outgoing : Direction → Bool
is_outgoing outgoing = true
is_outgoing _ = false

-- findMessage
unfoldable pub find_message : String → Database → Option Message
find_message id db = find (λ m. m.message_id == id) db.messages

-- COALESCE(received_at,sent_at,created_at)
abbrev pub activity : Message → ℕ
activity m = or_else (coalesce m.received_at m.sent_at) m.created_at

-- a comes before b under ORDER BY activity DESC, created_at DESC
abbrev pub newer : Message → Message → Bool
newer a b =
    ltb (activity b) (activity a)
    || (not (ltb (activity a) (activity b)) && ltb b.created_at a.created_at)

-- ORDER BY activity DESC, created_at DESC LIMIT 1
unfoldable pub latest : List Message → Option Message
latest [] = none
latest (m ∷ ms) = elim (latest ms) [ none ↦ some m | some n ↦ some (if newer n m then n else m) ]

abbrev pub in_thread : String → Message → Bool
in_thread id m = m.thread_id == id

abbrev pub field {ℓ} : {A : Type ℓ} → (Message → Option A) → Option Message → Option A
field f none = none
field f (some m) = f m

abbrev pub latest_time : Option Message → ℕ → ℕ
latest_time none t = t
latest_time (some m) t = activity m

-- EXISTS(SELECT 1 FROM mail_attachments a JOIN mail_messages m …)
unfoldable pub attachment_in : List Message → List AttachmentRow → Bool
attachment_in messages attachments =
    any (λ a. any (λ m. m.message_id == a.message_id) messages) attachments

-- the SET list of refreshThread
abbrev pub refreshed : List Message → List AttachmentRow → ℕ → Thread → Thread
refreshed inside attachments now t = record t {
  unread_count = count (λ m. is_incoming m.direction && not m.is_read) inside;
  is_replied = any (λ m. is_outgoing m.direction && is_some m.parent_message_id) inside;
  last_message_at = latest_time (latest inside) t.last_message_at;
  latest_message_id = field (λ m. some m.message_id) (latest inside);
  latest_direction = field (λ m. some m.direction) (latest inside);
  latest_sender_json = or_else (field (λ m. some m.from_json) (latest inside)) "[]";
  latest_envelope_from = field (λ m. m.envelope_from) (latest inside);
  latest_recipient = or_else (field (λ m. some m.envelope_to) (latest inside)) "";
  latest_preview =
      or_else (field (λ m. some (first_chars 800 (or_else m.text_body ""))) (latest inside)) "";
  latest_message_status = field (λ m. some m.status) (latest inside);
  has_incoming = any (λ m. is_incoming m.direction) inside;
  has_outgoing = any (λ m. is_outgoing m.direction) inside;
  has_attachment = attachment_in inside attachments;
  updated_at = now;
}

unfoldable pub refresh_thread : String → ℕ → Database → Database
refresh_thread id now db = record db {
  threads =
      update (λ t. t.thread_id == id)
        (refreshed (where_rows (in_thread id) db.messages) db.attachments now) db.threads;
}

-- DELETE FROM mail_threads WHERE thread_id=? AND NOT EXISTS(SELECT 1 FROM mail_messages …)
unfoldable pub delete_empty_thread : String → Database → Database
delete_empty_thread id db = record db {
  threads = delete (λ t. (t.thread_id == id) && not (any (in_thread id) db.messages)) db.threads;
}

-- in_reply_to=? OR instr(COALESCE(references_header,''),?)>0
abbrev pub refers_to : String → Message → Bool
refers_to id m =
    (or_else m.in_reply_to "" == id && is_some m.in_reply_to)
    || is_some (find? (or_else m.references_header "") id)

-- the rows that reconcileProviderMessageId moves
abbrev pub is_orphan : String → String → String → Message → Bool
is_orphan mailbox thread id m =
    is_incoming m.direction
    && (is_some m.mailbox_id && (or_else m.mailbox_id "" == mailbox))
    && not (m.thread_id == thread)
    && refers_to id m

-- SELECT DISTINCT, and [...new Set(xs)], which keeps the first of equal texts
unfoldable pub distinct : List String → List String
unfolding delete
distinct [] = []
distinct (x ∷ xs) = x ∷ delete (λ y. y == x) (distinct xs)

-- COALESCE(NULLIF(column,''),value)
abbrev pub keep_or_set : Option String → Option String → Option String
keep_or_set none v = v
keep_or_set (some s) v = if s == "" then v else some s

-- the loop over `oldThreads`
unfoldable pub refresh_old : String → ℕ → List String → Database → Database
refresh_old parent_thread now [] db = db
refresh_old parent_thread now (old ∷ more) db = refresh_old parent_thread now more (
    if (old == "") || (old == parent_thread)
    then db
    else delete_empty_thread old (refresh_thread old now db))

-- the two UPDATEs of reconcileProviderMessageId
unfoldable pub adopt : Message → String → String → ℕ → Database → Database
adopt parent mailbox id now db = record db {
  messages =
      update (is_orphan mailbox parent.thread_id id)
        (λ m. record m { thread_id = parent.thread_id; updated_at = now })
        (update (λ m. m.message_id == parent.message_id)
          (λ m. record m {
            provider_internet_message_id = keep_or_set m.provider_internet_message_id (some id);
            updated_at = now;
          })
          db.messages);
}

unfoldable pub reconcile : Message → String → String → ℕ → Database → Database
unfolding refresh_old adopt
reconcile parent mailbox id now db =
    let old_threads =
      distinct
        (map (λ m. m.thread_id) (where_rows (is_orphan mailbox parent.thread_id id) db.messages)) in
    refresh_thread parent.thread_id now
      (refresh_old parent.thread_id now old_threads (adopt parent mailbox id now db))

unfoldable pub reconcile_provider_message_id : Message → String → ℕ → Database → Database
unfolding reconcile
reconcile_provider_message_id parent internet_id now db =
    if trim internet_id == ""
    then db
    else if or_else parent.mailbox_id "" == ""
    then db
    else reconcile parent (or_else parent.mailbox_id "") (trim internet_id) now db

-- the domain of /^[^\s@<>]+@[^\s@<>]+\.[^\s@<>]+$/: `seen` a character, then a dot with one before
-- it (`dotted`), then one more (`done`)
unfoldable pub is_domain : (seen dotted done : Bool) → String → Bool
is_domain seen dotted done String.[] = done
is_domain seen dotted done (String.◌∷◌ c s) =
    is_id_char c
    && not (is_code b'@' c)
    && is_domain true (dotted || (seen && is_code b'.' c)) (done || dotted) s

-- the test of the whole expression
unfoldable pub is_address : Bool → String → Bool
unfolding is_domain
is_address seen String.[] = false
is_address seen (String.◌∷◌ c s) =
    let rest = is_address true s in
    if is_code b'@' c then seen && is_domain false false false s else is_id_char c && rest

-- createThreadPlaceholder and the INSERT OR IGNORE of ensureThread
unfoldable pub insert_thread :
    String → Option String → String → List String → ℕ → ℕ → Database → Database
insert_thread id mailbox subject people last_message_at now db =
    if any (λ t. t.thread_id == id) db.threads then db else record db {
      threads =
          db.threads
          ++ record {
            thread_id = id;
            mailbox_id = mailbox;
            subject = subject;
            participants = people;
            last_message_at = last_message_at;
            unread_count = 0;
            is_replied = false;
            status = open_thread;
            latest_message_id = none;
            latest_direction = none;
            latest_sender_json = "";
            latest_envelope_from = none;
            latest_recipient = "";
            latest_preview = "";
            latest_message_status = none;
            has_incoming = false;
            has_outgoing = false;
            has_attachment = false;
            created_at = now;
            updated_at = now;
          }
            ∷ [];
    }

unfoldable pub ensure_thread :
    String → Option String → String → List String → ℕ → Database → Database
unfolding insert_thread distinct is_address where_rows is_space update
ensure_thread id mailbox subject participants timestamp db =
    let people = take 100 (distinct (where_rows (is_address false) participants)) in
    let created =
      insert_thread id mailbox (first_chars 998 subject) people timestamp timestamp db in
    record created {
      threads =
          update (λ t. t.thread_id == id)
            (λ t. record t {
              mailbox_id = coalesce t.mailbox_id mailbox;
              subject = if t.subject == "" then first_chars 998 subject else t.subject;
              participants = people;
              last_message_at =
                  if ltb t.last_message_at timestamp then timestamp else t.last_message_at;
              updated_at = timestamp;
            })
            created.threads;
    }
