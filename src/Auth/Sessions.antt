-- ===== src/Auth/Sessions.antt =====
-- requireOrigin, the hashes of a request, and the life of a session.
use Prim.Native.String.{◌++◌ as joined}
use mail_gable.Base.{
  ℕ, ◌+◌, ◌-◌, ◌*◌, String, Bool, Option, none, some, List, [], ◌∷◌, ◌++◌, ◌==◌, not, ◌&&◌, ◌||◌,
  ltb, leb, if◌then◌else◌, first_text, coalesce, is_some, find, where_rows, update, any, take, map,
}
use mail_gable.Store.Effects.{
  origin_not_configured, origin_denied, auth_not_configured, unauthorized, csrf_invalid, app_error,
  Result, ok, err, Exec, lift, ◌>>=◌,
}
use mail_gable.Helpers.{byte_length}
use mail_gable.Auth.Tables.{
  Admin, Session, AuthState, Crypto, AuthEnv, Request, Fresh, SessionUser, hours_of,
  idle_minutes_of,
}

abbrev pub is_loopback : String → Bool
is_loopback host = (host == "localhost") || (host == "127.0.0.1") || (host == "::1")

abbrev pub expected_origin : AuthEnv → Request → String
expected_origin env req =
    first_text env.app_origin (if is_loopback req.hostname then req.url_origin else "")

unfoldable pub require_origin : AuthEnv → Request → Result (Unit {0})
require_origin env req =
    if expected_origin env req == ""
    then err (app_error 503 origin_not_configured)
    else if (req.origin == "") || not (req.origin == expected_origin env req)
    then err (app_error 403 origin_denied)
    else ok tt

unfoldable pub require_auth_pepper : AuthEnv → Result String
unfolding byte_length
require_auth_pepper env =
    if ltb (byte_length env.auth_pepper) 32
    then err (app_error 503 auth_not_configured)
    else if ltb 512 (byte_length env.auth_pepper)
    then err (app_error 503 auth_not_configured)
    else ok env.auth_pepper

module _ (c : Crypto) (env : AuthEnv) where
  -- sha256(`${pepper}|${value}`)
  abbrev pub peppered : String → Result String → Result String
  peppered value (err e) = err e
  peppered value (ok pepper) = ok (c.sha256 (joined pepper (joined "|" value)))

  unfoldable pub request_ip_hash : Request → Result String
  unfolding require_auth_pepper
  request_ip_hash req = peppered (first_text req.ip "unknown") (require_auth_pepper env)

  unfoldable pub user_agent_hash : Request → Result String
  unfolding require_auth_pepper
  user_agent_hash req = peppered req.user_agent (require_auth_pepper env)

  unfoldable pub subject_hash : String → String → Result String
  unfolding require_auth_pepper
  subject_hash scope value = peppered (joined scope (joined "|" value)) (require_auth_pepper env)

abbrev pub is_active : Session → Bool
is_active s = not (is_some s.revoked_at)

abbrev pub revoked : ℕ → Session → Session
revoked now s = record s { revoked_at = coalesce s.revoked_at (some now) }

-- UPDATE admin_sessions SET revoked_at=COALESCE(revoked_at,?) WHERE …
unfoldable pub revoke_where : (Session → Bool) → ℕ → AuthState → AuthState
revoke_where p now st = record st { sessions = update p (revoked now) st.sessions }

abbrev pub revoke_session : String → ℕ → AuthState → AuthState
revoke_session id = revoke_where (λ s. s.session_id == id)

-- ORDER BY created_at DESC
unfoldable pub insert_newest : Session → List Session → List Session
insert_newest s [] = s ∷ []
insert_newest s (t ∷ ts) =
    let rest = insert_newest s ts in if leb t.created_at s.created_at then s ∷ t ∷ ts else t ∷ rest

unfoldable pub newest_first : List Session → List Session
newest_first [] = []
newest_first (s ∷ ss) = insert_newest s (newest_first ss)

abbrev pub is_active_of : String → Session → Bool
is_active_of admin s = (s.admin_id == admin) && is_active s

abbrev pub has_id : List String → String → Bool
has_id ids id = any (λ i. i == id) ids

-- the session_ids of the newest five active sessions
unfoldable pub kept_ids : String → List Session → List String
kept_ids admin sessions =
    map (λ s. s.session_id) (take 5 (newest_first (where_rows (is_active_of admin) sessions)))

unfoldable pub trim_sessions : String → ℕ → AuthState → AuthState
trim_sessions admin now st = record st {
  sessions =
      update (λ s. is_active_of admin s && not (has_id (kept_ids admin st.sessions) s.session_id))
        (λ s. record s { revoked_at = some now }) st.sessions;
}

abbrev pub new_session : AuthEnv → Fresh → Crypto → String → String → String → Session
new_session env f c admin ip_hash ua_hash = record {
  session_id = f.session_id;
  admin_id = admin;
  token_hash = c.sha256 f.token;
  csrf_token = f.csrf_token;
  ip_hash = ip_hash;
  user_agent_hash = ua_hash;
  created_at = f.now;
  last_seen_at = f.now;
  expires_at = f.now + hours_of env * 60 * 60 * 1000;
  revoked_at = none;
}

-- the batch of createSession
unfoldable pub open_session : Session → ℕ → AuthState → AuthState
open_session s now st = record st {
  sessions = st.sessions ++ s ∷ [];
  admins =
      update (λ a. a.admin_id == s.admin_id)
        (λ a. record a { last_login_at = some now; updated_at = now }) st.admins;
}

-- createSession; the result is the token of the cookie
unfoldable pub create_session : Crypto → AuthEnv → Request → Fresh → String → Exec AuthState String
create_session c env req f admin = lift (request_ip_hash c env req) >>= λ ip_hash.
    lift (user_agent_hash c env req) >>= λ ua_hash. λ st. (
      ok f.token,
      trim_sessions admin f.now (open_session (new_session env f c admin ip_hash ua_hash) f.now st),
    )

-- the row of the SELECT that joins the sessions and the administrators
abbrev pub pair_with : Session → Option Admin → Option (Session × Admin)
pair_with s none = none
pair_with s (some a) = some (s, a)

abbrev pub admin_of : List Admin → Option Session → Option (Session × Admin)
admin_of admins none = none
admin_of admins (some s) = pair_with s (find (λ a. a.admin_id == s.admin_id) admins)

abbrev pub is_token : String → AuthState → Session → Bool
is_token hash st s =
    (s.token_hash == hash) && is_active s && any (λ a. a.admin_id == s.admin_id) st.admins

unfoldable pub find_session : String → AuthState → Option (Session × Admin)
find_session hash st = admin_of st.admins (find (is_token hash st) st.sessions)

abbrev pub user_of : Session → Admin → SessionUser
user_of s a = record {
  admin_id = a.admin_id;
  email = a.email;
  csrf_token = s.csrf_token;
  session_id = s.session_id;
}

-- lastSeen is older than the limit, where 0 switches the limit off
abbrev pub is_idle : ℕ → ℕ → Session → Bool
is_idle limit now s = ltb 0 limit && ltb limit (now - s.last_seen_at)

-- the UPDATE of last_seen_at, at most every five minutes
unfoldable pub touch : Session → ℕ → AuthState → AuthState
touch s now st =
    if ltb (5 * 60000) (now - s.last_seen_at)
    then record st {
      sessions =
          update (λ r. r.session_id == s.session_id) (λ r. record r { last_seen_at = now })
            st.sessions;
    }
    else st

-- getSession behind the test of the user agent
unfoldable pub check_idle : AuthEnv → ℕ → Session → Admin → Exec AuthState (Option SessionUser)
unfolding touch
check_idle env now s a st =
    if is_idle (idle_minutes_of env * 60000) now s
    then (ok none, revoke_session s.session_id now st)
    else (ok (some (user_of s a)), touch s now st)

-- getSession behind the test of the expiry
unfoldable pub check_agent :
    AuthEnv → ℕ → Session → Admin → String → Exec AuthState (Option SessionUser)
check_agent env now s a ua_hash st =
    if not (s.user_agent_hash == "") && not (s.user_agent_hash == ua_hash)
    then (ok none, revoke_session s.session_id now st)
    else check_idle env now s a st

abbrev pub check_row :
    Crypto → AuthEnv → Request → ℕ → Option (Session × Admin) → Exec AuthState (Option SessionUser)
check_row c env req now none st = (ok none, st)
check_row c env req now (some (s, a)) st =
    if a.disabled || leb s.expires_at now
    then (ok none, revoke_session s.session_id now st)
    else (lift (user_agent_hash c env req) >>= check_agent env now s a) st

unfoldable pub get_session : Crypto → AuthEnv → Request → ℕ → Exec AuthState (Option SessionUser)
get_session c env req now st =
    if req.cookie_token == ""
    then (ok none, st)
    else check_row c env req now (find_session (c.sha256 req.cookie_token) st) st

abbrev pub require_csrf : AuthEnv → Request → SessionUser → Result SessionUser
require_csrf env req user = elim (require_origin env req) [
  | err e ↦ err e
  | ok _ ↦
      if (req.csrf_header == "") || not (req.csrf_header == user.csrf_token)
      then err (app_error 403 csrf_invalid)
      else ok user
]

abbrev pub require_user : AuthEnv → Request → Bool → Option SessionUser → Result SessionUser
require_user env req csrf none = err (app_error 401 unauthorized)
require_user env req csrf (some user) = if csrf then require_csrf env req user else ok user

unfoldable pub require_session : Crypto → AuthEnv → Request → ℕ → Bool → Exec AuthState SessionUser
require_session c env req now csrf =
    get_session c env req now >>= λ user. lift (require_user env req csrf user)
