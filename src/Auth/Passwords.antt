-- ===== src/Auth/Passwords.antt =====
-- The bounds on passwords, their digests and the upgrade of a stored digest.
use mail_gable.Base.{
  ℕ, String, Bool, Option, none, some, List, ◌==◌, not, ◌&&◌, eqb, ltb, if◌then◌else◌, update,
}
use mail_gable.Store.Effects.{
  invalid_password, password_too_long, app_error, Result, ok, err, Exec, lift, modify, ◌>>=◌,
}
use mail_gable.Helpers.{byte_length, code_points, base64_url, base64_url_to_bytes}
use mail_gable.Auth.Tables.{Admin, AuthState, Crypto, AuthEnv, Fresh, iterations_of}
use mail_gable.Auth.Sessions.{require_auth_pepper}

abbrev pub password_scheme_v1 : String
password_scheme_v1 = "pbkdf2-sha256+hmac-sha256-v1"

module _ (c : Crypto) where
  unfoldable pub validate_password : String → Result (Unit {0})
  unfolding code_points byte_length
  validate_password password =
      let normalized = c.normalize_nfc password in
      if eqb (code_points normalized) 0
      then err (app_error 400 invalid_password)
      else if ltb (code_points normalized) 15
      then err (app_error 400 invalid_password)
      else if ltb 128 (code_points normalized)
      then err (app_error 400 password_too_long)
      else if ltb 512 (byte_length normalized)
      then err (app_error 400 password_too_long)
      else ok tt

  -- `none` is a value that is not a text
  unfoldable pub bounded_password : Option String → Result String
  unfolding code_points byte_length
  bounded_password none = err (app_error 400 invalid_password)
  bounded_password (some value) =
      let normalized = c.normalize_nfc value in
      if ltb 128 (code_points normalized)
      then err (app_error 400 password_too_long)
      else if ltb 512 (byte_length normalized)
      then err (app_error 400 password_too_long)
      else ok normalized

  abbrev pub with_pepper : String → List ℕ → ℕ → Result String → Result String
  with_pepper password salt iterations (err e) = err e
  with_pepper password salt iterations (ok pepper) =
      ok (c.derive_peppered pepper (c.normalize_nfc password) salt iterations)

  unfoldable pub password_digest : String → List ℕ → ℕ → AuthEnv → Result String
  unfolding require_auth_pepper
  password_digest password salt iterations env =
      with_pepper password salt iterations (require_auth_pepper env)

  unfoldable pub legacy_password_digest : String → List ℕ → ℕ → Result String
  legacy_password_digest password salt iterations =
      ok (c.derive (c.normalize_nfc password) salt iterations)

  abbrev pub uses_v1_scheme : Admin → Bool
  uses_v1_scheme a = a.password_scheme == password_scheme_v1

  -- the digest of a password under the salt and the scheme of the administrator
  abbrev pub digest_with : AuthEnv → Admin → String → Result (List ℕ) → Result String
  digest_with env a password (err e) = err e
  digest_with env a password (ok salt) =
      if uses_v1_scheme a
      then password_digest password salt a.password_iterations env
      else legacy_password_digest password salt a.password_iterations

  unfoldable pub stored_digest : AuthEnv → Admin → String → Result String
  unfolding password_digest legacy_password_digest base64_url_to_bytes
  stored_digest env a password = digest_with env a password (base64_url_to_bytes a.password_salt)

  abbrev pub with_password : String → List ℕ → ℕ → ℕ → Admin → Admin
  with_password hash salt iterations now a = record a {
    password_hash = hash;
    password_salt = base64_url salt;
    password_iterations = iterations;
    password_scheme = password_scheme_v1;
    updated_at = now;
  }

  -- the UPDATE of upgradePasswordHash, which compares the hash that was read
  unfoldable pub write_upgrade : Admin → String → AuthEnv → Fresh → AuthState → AuthState
  unfolding base64_url
  write_upgrade a hash env f st = record st {
    admins =
        update (λ b. (b.admin_id == a.admin_id) && (b.password_hash == a.password_hash))
          (with_password hash f.salt (iterations_of env) f.now) st.admins;
  }

  unfoldable pub upgrade_password_hash :
      String → Admin → AuthEnv → Fresh → Exec AuthState (Unit {0})
  unfolding password_digest
  upgrade_password_hash password a env f st =
      if not (ltb a.password_iterations (iterations_of env)) && uses_v1_scheme a
      then (ok tt, st)
      else (lift (password_digest password f.salt (iterations_of env) env) >>= λ hash.
            modify (write_upgrade a hash env f))
          st
