-- ===== src/Auth/Admission.antt =====
-- Who is logged in, and who is turned away by the rate limit.
use mail_gable.Base.{
  subst, String, Bool, true, false, Option, none, some, ◌==◌, ◌≡◌, refl, ◌∙◌, sym, ap, inl, inr,
  Bool-cases, if◌then◌else◌, eq_iff,
}
use mail_gable.Store.Effects.{
  app_error, rate_limited, not_initialized, Result, ok, err, lift, modify, ◌>>=◌, ◌>>◌,
}
use mail_gable.Store.Inversion.{bind-ok, lift-ok, guard-ok, result_or}
use mail_gable.Store.Keeps.{Refused, lift-Refused, guards-Refused}
use mail_gable.Helpers.{normalize_email}
use mail_gable.Auth.Tables.{Admin, AuthState, Crypto, AuthEnv, Request, Fresh, iterations_of}
use mail_gable.Auth.Sessions.{require_origin, request_ip_hash, subject_hash, create_session}
use mail_gable.Auth.Passwords.{
  bounded_password, password_digest, stored_digest, upgrade_password_hash,
}
use mail_gable.Auth.Handlers.{
  check, initialized, is_limited, enforce_login_rate_limit, login, attempt_login, admit, verify,
  matches, spent, record_attempts, admin_by_email,
}

module _ (c : Crypto) (env : AuthEnv) (req : Request) (f : Fresh) where
  spent-ok : (r : Result String) → spent c env req f r ≡ ok true → ⊥
  spent-ok (err e) h = cc
  spent-ok (ok d) h = cc

  matches-ok :
      (a : Admin) (r : Result String) → matches c env req f a r ≡ ok true → r ≡ ok a.password_hash
  matches-ok a (err e) h = cc
  matches-ok a (ok d) h =
      let same : (d == a.password_hash) ≡ true = cc in ap ok ((eq_iff d a.password_hash).0 same)

  -- The check of a password succeeds only for an enabled administrator whose stored digest it has.
  verify-ok :
      (password : String) (a : Admin)
      → verify c env req f password (some a) ≡ ok true
      → (a.disabled ≡ false) × (stored_digest c env a password ≡ ok a.password_hash)
  verify-ok password a h = go a.disabled refl h
    where
      go :
          (off : Bool)
          → a.disabled ≡ off
          → (if off
              then spent c env req f (password_digest c password f.salt (iterations_of env) env)
              else matches c env req f a (stored_digest c env a password))
            ≡ ok true
          → (a.disabled ≡ false) × (stored_digest c env a password ≡ ok a.password_hash)
      go true e p = absurd (spent-ok _ p)
      go false e p = (e, matches-ok a (stored_digest c env a password) p)

  -- The state that a login which is let in continues with.
  abbrev pub IsAdmitted :
      String → AuthState → AuthState → String → String → String → String → Admin → Type 0
  IsAdmitted email st after token password ip email_hash a =
      (is_limited ip email_hash f.now st ≡ false)
      × (admin_by_email c env req f email st ≡ some a)
      × (a.disabled ≡ false)
      × (stored_digest c env a password ≡ ok a.password_hash)
      × ((upgrade_password_hash c password a env f >> create_session c env req f a.admin_id)
            (record_attempts ip email_hash true f.now st)
          ≡ (ok token, after))

  attempt_login-ok :
      (email password ip email_hash : String) (st after : AuthState) (token : String)
      → attempt_login c env req f email password ip email_hash st ≡ (ok token, after)
      → (a : Admin) × (admin_by_email c env req f email st ≡ some a)
        × (a.disabled ≡ false)
        × (stored_digest c env a password ≡ ok a.password_hash)
        × ((upgrade_password_hash c password a env f >> create_session c env req f a.admin_id)
              (record_attempts ip email_hash true f.now st)
            ≡ (ok token, after))
  unfolding attempt_login
  attempt_login-ok email password ip email_hash st after token h =
      go (admin_by_email c env req f email st) refl h
    where
      go :
          (row : Option Admin)
          → admin_by_email c env req f email st ≡ row
          → (lift (verify c env req f password row) >>= λ valid.
                modify (record_attempts ip email_hash valid f.now)
                >> admit c env req f password row valid)
              st
            ≡ (ok token, after)
          → (a : Admin) × (admin_by_email c env req f email st ≡ some a)
            × (a.disabled ≡ false)
            × (stored_digest c env a password ≡ ok a.password_hash)
            × ((upgrade_password_hash c password a env f >> create_session c env req f a.admin_id)
                  (record_attempts ip email_hash true f.now st)
                ≡ (ok token, after))
      go none e p =
          let (valid, q, r) = lift-ok (verify c env req f password none) _ st after token p in cc
      go (some a) e p =
          let (valid, q, r) = lift-ok (verify c env req f password (some a)) _ st after token p in
          elim (Bool-cases valid) [
            | inl yes' ↦
                let (on, same) = verify-ok password a (q ∙ ap ok yes') in
                (a, e, on, same, (rw yes' at r))
            | inr no' ↦ absurd (refused a valid r no')
          ]
        where
          refused :
              (a : Admin) (valid : Bool)
              → (modify (record_attempts ip email_hash valid f.now)
                    >> admit c env req f password (some a) valid)
                  st
                ≡ (ok token, after)
              → valid ≡ false
              → ⊥
          refused a true r no' = cc
          refused a false r no' = cc

  limit-ok :
      (ip email_hash : String) (st after : AuthState)
      → enforce_login_rate_limit ip email_hash f.now st ≡ (ok tt, after)
      → (is_limited ip email_hash f.now st ≡ false) × (st ≡ after)
  unfolding enforce_login_rate_limit
  limit-ok ip email_hash st after h = elim (Bool-cases (is_limited ip email_hash f.now st)) [
    | inl over ↦
        let p : Path (Result (Unit {0}) × AuthState) (err (app_error 429 rate_limited), st)
            (ok tt, after) =
          rw over at h in
        cc
    | inr under ↦
        let p : Path (Result (Unit {0}) × AuthState) (ok tt, st) (ok tt, after) = rw under at h in
        (under, ap (λ x. x.1) p)
  ]

  -- A login that succeeds is that of an enabled administrator with the e-mail address of the
  -- request, whose stored digest is the digest of the password; neither the address nor the
  -- account had reached its limit of failures; both attempts are recorded and a session is opened.
  pub login-ok :
      (email : String) (password : Option String) (st after : AuthState) (token : String)
      → login c env req f email password st ≡ (ok token, after)
      → (text : String) × (ip : String) × (email_hash : String) × (a : Admin) × ((bounded_password c
              password
            ≡ ok text)
          × (request_ip_hash c env req ≡ ok ip)
          × (subject_hash c env "email" (normalize_email email) ≡ ok email_hash)
          × IsAdmitted (normalize_email email) st after token text ip email_hash a)
  unfolding login
  login-ok email password st after token h =
      let origin = lift (require_origin env req) in
      let ready = check (initialized st) (app_error 409 not_initialized) in
      let (_, mid, h1, h2) = bind-ok (origin >> lift ready) _ st after token h in
      let (_, h3, _) = guard-ok origin ready st mid tt h1 in
      let at : mid ≡ st = ap (λ x. x.1) (sym h3) in
      let (text, is_text, h4) = lift-ok (bounded_password c password) _ mid after token h2 in
      let (ip, is_ip, h5) = lift-ok (request_ip_hash c env req) _ mid after token h4 in
      let (hash, is_hash, h6) =
        lift-ok (subject_hash c env "email" (normalize_email email)) _ mid after token h5 in
      let (_, same, h7, h8) =
        bind-ok (enforce_login_rate_limit ip hash f.now) _ mid after token h6 in
      let (under, kept) = limit-ok ip hash mid same h7 in
      let (a, found, on, matched, opened) =
        attempt_login-ok (normalize_email email) text ip hash same after token h8 in
      (
        text,
        ip,
        hash,
        a,
        (
          is_text,
          is_ip,
          is_hash,
          subst (λ x. IsAdmitted (normalize_email email) x after token text ip hash a)
              (sym kept ∙ at)
              (ap (is_limited ip hash f.now) (sym kept) ∙ under, found, on, matched, opened),
        ),
      )

  -- From an address with 12 failures in the last 15 minutes, or for an account with 8, every
  -- login fails, whatever the password is, and writes nothing.
  pub login-Refused :
      (email : String) (password : Option String) (ip email_hash : String) (st : AuthState)
      → request_ip_hash c env req ≡ ok ip
      → subject_hash c env "email" (normalize_email email) ≡ ok email_hash
      → is_limited ip email_hash f.now st ≡ true
      → Refused (login c env req f email password) st
  unfolding login enforce_login_rate_limit
  login-Refused email password ip email_hash st is_ip is_hash over =
      guards-Refused (require_origin env req)
        (check (initialized st) (app_error 409 not_initialized)) _ st
        λ _ _. lift-Refused (bounded_password c password) _ st λ text _.
          lift-Refused (request_ip_hash c env req) _ st λ ip' same.
            lift-Refused (subject_hash c env "email" (normalize_email email)) _ st λ hash' equal.
              let p : ip ≡ ip' = ap (result_or ip) (sym is_ip ∙ same) in
              let q : email_hash ≡ hash' = ap (result_or email_hash) (sym is_hash ∙ equal) in
              let limited : is_limited ip' hash' f.now st ≡ true = rw (sym p, sym q) over in
              (app_error 429 rate_limited, rw limited refl)
