-- ===== src/Auth/Renewed.antt =====
-- A password that has been stored is accepted.
use mail_gable.Base.{ℕ, String, true, List, ◌≡◌, ◌∙◌, ap, eq_refl}
use mail_gable.Store.Effects.{ok}
use mail_gable.Helpers.RoundTrip.{AreBytes, base64_url_to_bytes-base64_url}
use mail_gable.Auth.Tables.{Admin, Crypto, AuthEnv, Request, Fresh}
use mail_gable.Auth.Passwords.{password_digest, stored_digest, digest_with, with_password}
use mail_gable.Auth.Handlers.{matches}

module _ (c : Crypto) (env : AuthEnv) where
  with_password-stored_digest :
      (a : Admin) (password hash : String) (salt : List ℕ) (iterations now : ℕ)
      → AreBytes salt
      → stored_digest c env (with_password c hash salt iterations now a) password
        ≡ password_digest c password salt iterations env
  unfolding stored_digest
  with_password-stored_digest a password hash salt iterations now bytes =
      ap (digest_with c env (with_password c hash salt iterations now a) password)
        (base64_url_to_bytes-base64_url salt bytes)

  -- An administrator for whom the digest of a password is stored, at the setup, by an upgrade or by
  -- a change of the password, is let in with this password: the stored salt is read back as it was.
  pub with_password-matches :
      (req : Request) (f : Fresh) (a : Admin) (password hash : String) (salt : List ℕ)
      (iterations now : ℕ)
      → AreBytes salt
      → password_digest c password salt iterations env ≡ ok hash
      → matches c env req f
          (with_password c hash salt iterations now a)
          (stored_digest c env (with_password c hash salt iterations now a) password)
        ≡ ok true
  with_password-matches req f a password hash salt iterations now bytes e =
      ap (matches c env req f (with_password c hash salt iterations now a))
        (with_password-stored_digest a password hash salt iterations now bytes ∙ e)
      ∙ ap ok (eq_refl hash)
