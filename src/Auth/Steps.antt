-- ===== src/Auth/Steps.antt =====
-- Requests and the cleanup as steps of the tables, and what no sequence of them undoes.
use mail_gable.Base.{
  ℕ, find, first_text, leb, not, ◌&&◌, ltb, String, Bool, true, false, Option, none, some, ◌==◌,
  ◌≡◌, arith, Bool-cases, inl, inr,
}
use mail_gable.Store.Effects.{
  already_initialized, bootstrap_denied, auth_not_configured, invalid_admin_email,
  password_unchanged, app_error, not_initialized, lift, ◌>>◌,
}
use mail_gable.Store.Inversion.{keeps-lift}
use mail_gable.Helpers.{code_points, normalize_email}
use mail_gable.Store.Keeps.{guard-Keeps, Keeps, lift-Keeps, bind-Keeps}
use mail_gable.Auth.Tables.{
  Admin, AuthState, Crypto, AuthEnv, Request, Fresh, SessionUser, iterations_of,
}
use mail_gable.Auth.Sessions.{
  require_origin, request_ip_hash, subject_hash, get_session, create_session,
}
use mail_gable.Auth.Handlers.{
  token_matches, email_allowed, first_admin, enabled_admin, check_current, matches, check,
  initialized, login, verify, admin_by_email, bootstrap, logout, logout_user, logout_all,
  change_password, replace_password, cleanup_auth, attempt_login, admit, record_attempts,
  insert_admin, enforce_login_rate_limit,
}
use mail_gable.Auth.Passwords.{
  stored_digest, bounded_password, validate_password, password_digest, uses_v1_scheme,
  upgrade_password_hash, write_upgrade,
}
use mail_gable.Auth.Revoking.{
  NoneActive, has_session_id, get_session-NoneActive, create_session-NoneActive,
  revoke_where-NoneActive, cleanup_auth-NoneActive,
}

-- A step of a request that is handled alone, or of the cleanup. Sessions that it opens have
-- another id than `id`.
pub data Step (id : String) (st : AuthState) : AuthState → Type 0 where
  signs_in :
      (c : Crypto) (env : AuthEnv) (req : Request) (f : Fresh) (email : String)
      (password : Option String)
      → (f.session_id == id) ≡ false
      → Step id st (login c env req f email password st).1
  sets_up :
      (c : Crypto) (env : AuthEnv) (req : Request) (f : Fresh) (email : String)
      (password : Option String)
      → (f.session_id == id) ≡ false
      → Step id st (bootstrap c env req f email password (λ s. s) st).1
  looks_up :
      (c : Crypto) (env : AuthEnv) (req : Request) (now : ℕ)
      → Step id st (get_session c env req now st).1
  signs_out :
      (c : Crypto) (env : AuthEnv) (req : Request) (f : Fresh)
      → Step id st (logout c env req f st).1
  signs_out_all :
      (c : Crypto) (env : AuthEnv) (req : Request) (f : Fresh) (user : SessionUser)
      → Step id st (logout_all c env req f user st).1
  changes_password :
      (c : Crypto) (env : AuthEnv) (req : Request) (f : Fresh) (user : SessionUser)
      (current new : Option String)
      → Step id st (change_password c env req f user current new st).1
  cleans_up : (now : ℕ) → Step id st (cleanup_auth now st)

pub data Reach (id : String) (st : AuthState) : AuthState → Type 0 where
  here : Reach id st st
  next : {mid after : AuthState} → Reach id st mid → Step id mid after → Reach id st after

module _ (id : String) where
  abbrev pub IsQuiet : AuthState → Type 0
  IsQuiet = NoneActive (has_session_id id)

  module _ (c : Crypto) (env : AuthEnv) (req : Request) (f : Fresh) where
    upgrade-Keeps :
        (password : String) (a : Admin) → Keeps IsQuiet (upgrade_password_hash c password a env f)
    unfolding upgrade_password_hash write_upgrade
    upgrade-Keeps password a st h =
        elim (Bool-cases
          (not (ltb a.password_iterations (iterations_of env)) && uses_v1_scheme c a)) [
            | inl same ↦ rw same h
            | inr old ↦ rw old (
                keeps-lift IsQuiet (password_digest c password f.salt (iterations_of env) env) _
                  (λ hash st h. h) st h)
          ]

    admit-Keeps :
        (password : String) (a : Option Admin) (valid : Bool)
        → (f.session_id == id) ≡ false
        → Keeps IsQuiet (admit c env req f password a valid)
    admit-Keeps password none valid apart st h = h
    admit-Keeps password (some a) false apart st h = h
    admit-Keeps password (some a) true apart st h =
        bind-Keeps IsQuiet (upgrade_password_hash c password a env f)
          (λ _. create_session c env req f a.admin_id) (upgrade-Keeps password a)
          (λ _. create_session-NoneActive id c env req f a.admin_id apart) st h

    attempt_login-Keeps :
        (email password ip email_hash : String)
        → (f.session_id == id) ≡ false
        → Keeps IsQuiet (attempt_login c env req f email password ip email_hash)
    unfolding attempt_login record_attempts
    attempt_login-Keeps email password ip email_hash apart st h =
        let admin = admin_by_email c env req f email st in
        keeps-lift IsQuiet (verify c env req f password admin) _
          (λ valid st h.
            admit-Keeps password admin valid apart (record_attempts ip email_hash valid f.now st) h)
          st h

    limit-Keeps : (ip hash : String) → Keeps IsQuiet (enforce_login_rate_limit ip hash f.now)
    unfolding enforce_login_rate_limit
    limit-Keeps ip hash st h = ground arith

    login-Keeps :
        (email : String) (password : Option String)
        → (f.session_id == id) ≡ false
        → Keeps IsQuiet (login c env req f email password)
    unfolding login enforce_login_rate_limit
    login-Keeps email password apart st h =
        let origin = lift (require_origin env req) in
        let ready = check (initialized st) (app_error 409 not_initialized) in
        bind-Keeps IsQuiet (origin >> lift ready) _
          (guard-Keeps IsQuiet origin ready (lift-Keeps IsQuiet (require_origin env req)))
          (λ _. keeps-lift IsQuiet (bounded_password c password) _ λ password.
            keeps-lift IsQuiet (request_ip_hash c env req) _ λ ip.
              keeps-lift IsQuiet (subject_hash c env "email" (normalize_email email)) _ λ hash.
                bind-Keeps IsQuiet (enforce_login_rate_limit ip hash f.now) _ (limit-Keeps ip hash)
                  (λ _. attempt_login-Keeps (normalize_email email) password ip hash apart))
          st h

    insert-Keeps : (a : Admin) → Keeps IsQuiet (insert_admin c env req f a)
    unfolding insert_admin
    insert-Keeps a st h = ground arith

    bootstrap-Keeps :
        (email : String) (password : Option String)
        → (f.session_id == id) ≡ false
        → Keeps IsQuiet (bootstrap c env req f email password (λ s. s))
    unfolding bootstrap insert_admin
    bootstrap-Keeps email password apart st h =
        let email = normalize_email (first_text email (normalize_email env.admin_email)) in
        let origin = lift (require_origin env req) in
        let empty = check (not (initialized st)) (app_error 409 already_initialized) in
        let token = check (token_matches c env req f) (app_error 403 bootstrap_denied) in
        let pepper =
          check (leb 32 (code_points env.auth_pepper)) (app_error 503 auth_not_configured) in
        bind-Keeps IsQuiet (origin >> lift empty >> lift token >> lift pepper) _
          (guard-Keeps IsQuiet (origin >> lift empty >> lift token) pepper (
            guard-Keeps IsQuiet (origin >> lift empty) token
              (guard-Keeps IsQuiet origin empty (lift-Keeps IsQuiet (require_origin env req)))))
          (λ _. keeps-lift IsQuiet (bounded_password c password) _ λ password.
            let allowed =
              check (email_allowed c env req f email) (app_error 400 invalid_admin_email) in
            let bounds = lift (validate_password c password) in
            bind-Keeps IsQuiet (lift allowed >> bounds) _
              (guard-Keeps IsQuiet (lift allowed) (validate_password c password)
                (lift-Keeps IsQuiet allowed))
              (λ _.
                keeps-lift IsQuiet (password_digest c password f.salt (iterations_of env) env) _
                  λ hash st h.
                    bind-Keeps IsQuiet
                      (insert_admin c env req f (first_admin c env req f email hash))
                      (λ _. create_session c env req f f.admin_id)
                      (insert-Keeps (first_admin c env req f email hash))
                      (λ _. create_session-NoneActive id c env req f f.admin_id apart) st h))
          st h

    logout_user-Keeps : (user : Option SessionUser) → Keeps IsQuiet (logout_user c env req f user)
    logout_user-Keeps none st h = h
    logout_user-Keeps (some user) st h =
        ground (arith, revoke_where-NoneActive id (λ s. s.session_id == user.session_id) f.now st h)

    logout-Keeps : Keeps IsQuiet (logout c env req f)
    unfolding logout
    logout-Keeps = keeps-lift IsQuiet (require_origin env req) _ λ _.
        bind-Keeps IsQuiet (get_session c env req f.now) (logout_user c env req f)
          (get_session-NoneActive id c env req f.now) logout_user-Keeps

    logout_all-Keeps : (user : SessionUser) → Keeps IsQuiet (logout_all c env req f user)
    unfolding logout_all
    logout_all-Keeps user st =
        revoke_where-NoneActive id (λ s. s.admin_id == user.admin_id) f.now st

    change_password-Keeps :
        (user : SessionUser) (current new : Option String)
        → Keeps IsQuiet (change_password c env req f user current new)
    unfolding change_password replace_password
    change_password-Keeps user current new st h =
        let row = find (λ a. (a.admin_id == user.admin_id) && not a.disabled) st.admins in
        keeps-lift IsQuiet (bounded_password c current) _
          (λ current. keeps-lift IsQuiet (bounded_password c new) _ λ new.
            let bounds = lift (validate_password c new) in
            let other = check (not (current == new)) (app_error 400 password_unchanged) in
            bind-Keeps IsQuiet (bounds >> lift other) _
              (guard-Keeps IsQuiet bounds other (lift-Keeps IsQuiet (validate_password c new)))
              (λ _. keeps-lift IsQuiet (enabled_admin c env req f row) _ λ a.
                let matched =
                  check_current c env req f a
                    (matches c env req f a (stored_digest c env a current)) in
                keeps-lift IsQuiet matched _ λ _.
                  keeps-lift IsQuiet (password_digest c new f.salt (iterations_of env) env) _
                    λ hash st.
                      revoke_where-NoneActive id (λ s. s.admin_id == user.admin_id) f.now _))
          st h

  pub Step-IsQuiet : (st after : AuthState) → Step id st after → IsQuiet st → IsQuiet after
  Step-IsQuiet st after (signs_in c env req f email password apart) h =
      login-Keeps c env req f email password apart st h
  Step-IsQuiet st after (sets_up c env req f email password apart) h =
      bootstrap-Keeps c env req f email password apart st h
  Step-IsQuiet st after (looks_up c env req now) h = get_session-NoneActive id c env req now st h
  Step-IsQuiet st after (signs_out c env req f) h = logout-Keeps c env req f st h
  Step-IsQuiet st after (signs_out_all c env req f user) h = logout_all-Keeps c env req f user st h
  Step-IsQuiet st after (changes_password c env req f user current new) h =
      change_password-Keeps c env req f user current new st h
  Step-IsQuiet st after (cleans_up now) h = cleanup_auth-NoneActive id now st h

  -- A session that is not active is so after every sequence of requests and cleanups whose new
  -- sessions have another id.
  pub Reach-IsQuiet : (st after : AuthState) → Reach id st after → IsQuiet st → IsQuiet after
  Reach-IsQuiet st after here h = h
  Reach-IsQuiet st after (next {mid} before step) h =
      Step-IsQuiet mid after step (Reach-IsQuiet st mid before h)
