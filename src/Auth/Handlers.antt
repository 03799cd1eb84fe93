-- ===== src/Auth/Handlers.antt =====
-- The handlers. The audit log is not modelled; the size limit of readJson has passed.
use mail_gable.Base.{
  ℕ, ◌-◌, ◌*◌, String, Bool, true, false, Option, none, some, [], ◌∷◌, ◌++◌, ◌==◌, not, ◌&&◌, ◌||◌,
  ltb, leb, if◌then◌else◌, first_text, find, update, delete, any, count, lower_text,
}
use mail_gable.Store.Effects.{
  already_initialized, bootstrap_denied, auth_not_configured, invalid_admin_email, not_initialized,
  rate_limited, invalid_credentials, csrf_invalid, password_unchanged, unauthorized, Error,
  app_error, Result, ok, err, Exec, lift, modify, raise, pure, ◌>>=◌, ◌>>◌,
}
use mail_gable.Helpers.{normalize_email, valid_email, code_points, base64_url}
use mail_gable.Auth.Tables.{
  Admin, Scope, by_ip, by_email, Attempt, AuthState, Crypto, AuthEnv, Request, Fresh, SessionUser,
  iterations_of,
}
use mail_gable.Auth.Sessions.{
  require_origin, request_ip_hash, subject_hash, revoke_where, revoke_session, create_session,
  get_session,
}
use mail_gable.Auth.Passwords.{
  password_scheme_v1, validate_password, bounded_password, password_digest, stored_digest,
  with_password, upgrade_password_hash,
}

abbrev pub initialized : AuthState → Bool
initialized st = elim st.admins [ [] ↦ false | _ ∷ _ ↦ true ]

abbrev pub check : Bool → Error → Result (Unit {0})
check true e = ok tt
check false e = err e

-- COLLATE NOCASE
abbrev pub has_email : String → Admin → Bool
has_email email a = lower_text a.email == lower_text email

-- the counting SELECT of enforceLoginRateLimit
abbrev pub is_failure : Scope → String → ℕ → Attempt → Bool
is_failure by_ip hash cutoff t = elim t.scope [
  | by_ip ↦ (t.subject_hash == hash) && not t.success && leb cutoff t.created_at
  | by_email ↦ false
]
is_failure by_email hash cutoff t = elim t.scope [
  | by_ip ↦ false
  | by_email ↦ (t.subject_hash == hash) && not t.success && leb cutoff t.created_at
]

unfoldable pub failures : Scope → String → ℕ → AuthState → ℕ
failures scope hash now st = count (is_failure scope hash (now - 15 * 60000)) st.attempts

abbrev pub is_limited : String → String → ℕ → AuthState → Bool
is_limited ip_hash email_hash now st =
    leb 12 (failures by_ip ip_hash now st) || leb 8 (failures by_email email_hash now st)

unfoldable pub enforce_login_rate_limit : String → String → ℕ → Exec AuthState (Unit {0})
enforce_login_rate_limit ip_hash email_hash now st =
    if is_limited ip_hash email_hash now st
    then (err (app_error 429 rate_limited), st)
    else (ok tt, st)

-- recordAttempt, for the address and for the account
unfoldable pub record_attempts : String → String → Bool → ℕ → AuthState → AuthState
record_attempts ip_hash email_hash success now st = record st {
  attempts =
      st.attempts
      ++ record { scope = by_ip; subject_hash = ip_hash; success = success; created_at = now }
        ∷ record {
          scope = by_email;
          subject_hash = email_hash;
          success = success;
          created_at = now;
        }
        ∷ [];
}

module _ (c : Crypto) (env : AuthEnv) (req : Request) (f : Fresh) where
  abbrev pub matches : Admin → Result String → Result Bool
  matches a (err e) = err e
  matches a (ok actual) = ok (actual == a.password_hash)

  abbrev pub spent : Result String → Result Bool
  spent (err e) = err e
  spent (ok _) = ok false

  -- whether the password is the one of the administrator; without an enabled one a digest is
  -- computed all the same
  abbrev pub verify : String → Option Admin → Result Bool
  verify password none = spent (password_digest c password f.salt (iterations_of env) env)
  verify password (some a) =
      if a.disabled
      then spent (password_digest c password f.salt (iterations_of env) env)
      else matches a (stored_digest c env a password)

  -- SELECT * FROM admins WHERE email=? COLLATE NOCASE LIMIT 1
  unfoldable pub admin_by_email : String → AuthState → Option Admin
  unfolding valid_email
  admin_by_email email st = if valid_email email then find (has_email email) st.admins else none

  -- login behind the check of the password
  abbrev pub admit : String → Option Admin → Bool → Exec AuthState String
  admit password none valid = raise (app_error 401 invalid_credentials)
  admit password (some a) false = raise (app_error 401 invalid_credentials)
  admit password (some a) true =
      upgrade_password_hash c password a env f >> create_session c env req f a.admin_id

  -- login from the look-up of the administrator on
  unfoldable pub attempt_login : String → String → String → String → Exec AuthState String
  attempt_login email password ip_hash email_hash st =
      let admin = admin_by_email email st in
      (lift (verify password admin) >>= λ valid.
      modify (record_attempts ip_hash email_hash valid f.now) >> admit password admin valid)
        st

  -- login; the body has an e-mail address and a password
  unfoldable pub login : String → Option String → Exec AuthState String
  unfolding normalize_email
  login body_email body_password st =
      (lift (require_origin env req)
          >> lift (check (initialized st) (app_error 409 not_initialized))
          >> (lift (bounded_password c body_password) >>= λ password.
              lift (request_ip_hash c env req) >>= λ ip_hash.
              lift (subject_hash c env "email" (normalize_email body_email)) >>= λ email_hash.
              enforce_login_rate_limit ip_hash email_hash f.now
              >> attempt_login (normalize_email body_email) password ip_hash email_hash))
        st

  abbrev pub first_admin : String → String → Admin
  first_admin email hash = record {
    admin_id = f.admin_id;
    email = email;
    password_hash = hash;
    password_salt = base64_url f.salt;
    password_iterations = iterations_of env;
    password_scheme = password_scheme_v1;
    disabled = false;
    last_login_at = none;
    updated_at = f.now;
  }

  -- the INSERT of bootstrap, which fails for an id or an address that is there
  unfoldable pub insert_admin : Admin → Exec AuthState (Unit {0})
  insert_admin a st =
      if any (λ b. (b.admin_id == a.admin_id) || has_email a.email b) st.admins
      then (err (app_error 409 already_initialized), st)
      else (ok tt, record st { admins = st.admins ++ a ∷ [] })

  abbrev pub token_matches : Bool
  token_matches =
      not (env.admin_bootstrap_token == "")
      && not (req.bootstrap_header == "")
      && (env.admin_bootstrap_token == req.bootstrap_header)

  abbrev pub email_allowed : String → Bool
  email_allowed email =
      let configured = normalize_email env.admin_email in
      valid_email email && ((configured == "") || (email == configured))

  -- bootstrap; `others` is what other requests write between the first check and the INSERT
  unfoldable pub bootstrap :
      String → Option String → (AuthState → AuthState) → Exec AuthState String
  unfolding normalize_email valid_email
  bootstrap body_email body_password others st =
      let email = normalize_email (first_text body_email (normalize_email env.admin_email)) in
      (lift (require_origin env req)
          >> lift (check (not (initialized st)) (app_error 409 already_initialized))
          >> lift (check token_matches (app_error 403 bootstrap_denied))
          >> lift (check (leb 32 (code_points env.auth_pepper)) (app_error 503 auth_not_configured))
          >> (lift (bounded_password c body_password) >>= λ password.
              lift (check (email_allowed email) (app_error 400 invalid_admin_email))
              >> lift (validate_password c password)
              >> (lift (password_digest c password f.salt (iterations_of env) env) >>= λ hash.
                  modify others
                  >> insert_admin (first_admin email hash)
                  >> create_session c env req f f.admin_id)))
        st

  -- authStatus: whether there is an administrator, and the session of the request
  unfoldable pub auth_status : Exec AuthState (Bool × Option SessionUser)
  auth_status st =
      if initialized st
      then (get_session c env req f.now >>= λ session. pure (true, session)) st
      else (ok (false, none), st)

  abbrev pub logout_user : Option SessionUser → Exec AuthState (Unit {0})
  logout_user none st = (ok tt, st)
  logout_user (some user) st =
      if (req.csrf_header == "") || not (req.csrf_header == user.csrf_token)
      then (err (app_error 403 csrf_invalid), st)
      else (ok tt, revoke_session user.session_id f.now st)

  unfoldable pub logout : Exec AuthState (Unit {0})
  logout = lift (require_origin env req) >> (get_session c env req f.now >>= logout_user)

  unfoldable pub logout_all : SessionUser → Exec AuthState (Unit {0})
  logout_all user = modify (revoke_where (λ s. s.admin_id == user.admin_id) f.now)

  -- the batch of changePassword
  unfoldable pub replace_password : SessionUser → String → AuthState → AuthState
  replace_password user hash st =
      revoke_where (λ s. s.admin_id == user.admin_id) f.now
        (record st {
          admins =
              update (λ a. a.admin_id == user.admin_id)
                (with_password c hash f.salt (iterations_of env) f.now) st.admins;
        })

  abbrev pub check_current : Admin → Result Bool → Result (Unit {0})
  check_current a (err e) = err e
  check_current a (ok matched) = check matched (app_error 401 invalid_credentials)

  abbrev pub enabled_admin : Option Admin → Result Admin
  enabled_admin none = err (app_error 401 unauthorized)
  enabled_admin (some a) = ok a

  unfoldable pub change_password :
      SessionUser → Option String → Option String → Exec AuthState (Unit {0})
  change_password user body_current body_new st =
      (lift (bounded_password c body_current) >>= λ current.
      lift (bounded_password c body_new) >>= λ new.
      lift (validate_password c new)
      >> lift (check (not (current == new)) (app_error 400 password_unchanged))
      >> (lift
            (enabled_admin (find (λ a. (a.admin_id == user.admin_id) && not a.disabled) st.admins))
          >>= λ a.
              lift (check_current a (matches a (stored_digest c env a current)))
              >> (lift (password_digest c new f.salt (iterations_of env) env) >>= λ hash.
                  modify (replace_password user hash))))
        st

abbrev pub is_revoked_before : ℕ → Option ℕ → Bool
is_revoked_before cutoff none = false
is_revoked_before cutoff (some t) = ltb t cutoff

-- cleanupAuth
unfoldable pub cleanup_auth : ℕ → AuthState → AuthState
cleanup_auth now st = record st {
  attempts = delete (λ t. ltb t.created_at (now - 2 * 24 * 60 * 60000)) st.attempts;
  sessions =
      delete
        (λ s. ltb s.expires_at now || is_revoked_before (now - 30 * 24 * 60 * 60000) s.revoked_at)
        st.sessions;
}
