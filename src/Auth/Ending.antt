-- ===== src/Auth/Ending.antt =====
-- What a revocation ends: no later request is given the session.
use mail_gable.Base.{
  ℕ, String, Bool, true, false, Option, none, some, List, [], ◌∷◌, ◌==◌, ◌≡◌, refl, ◌∙◌, sym, ap,
  ◌&&◌, not, arith, inl, inr, Bool-cases, find, any, update, coalesce,
}
use mail_gable.Store.Effects.{
  Error, app_error, password_unchanged, invalid_credentials, Result, ok, err, lift, ◌>>◌,
}
use mail_gable.Store.Inversion.{lift-ok, guard-ok, bind-ok}
use mail_gable.Helpers.{base64_url}
use mail_gable.Auth.Tables.{
  Admin, iterations_of, Session, AuthState, Crypto, AuthEnv, Request, Fresh, SessionUser,
}
use mail_gable.Auth.Sessions.{get_session, is_active, is_token, revoke_where}
use mail_gable.Auth.Passwords.{
  password_scheme_v1, bounded_password, validate_password, stored_digest, password_digest,
}
use mail_gable.Auth.Handlers.{
  check, enabled_admin, check_current, matches, logout_all, change_password, replace_password,
}
use mail_gable.Auth.Lookup.{get_session-some}
use mail_gable.Auth.Revoking.{NoneActive, has_session_id, any-update-revoked}
use mail_gable.Auth.Steps.{Reach, IsQuiet, Reach-IsQuiet}

any-find :
    (p q : Session → Bool) (s : Session) (ss : List Session)
    → find p ss ≡ some s
    → any q ss ≡ false
    → q s ≡ false
unfolding find any
any-find p q s [] e quiet = cc
any-find p q s (t ∷ ts) e quiet = elim (Bool-cases (p t)) [
  | inl here ↦
      let same : some t ≡ some s = rw here at e in
      let eq : t ≡ s = cc in ap q (sym eq) ∙ ground arith
  | inr later ↦ any-find p q s ts (rw later at e) (ground arith)
]

module _ (c : Crypto) (env : AuthEnv) (req : Request) (now : ℕ) (st st' : AuthState)
    (user : SessionUser) where
  get_session-apart :
      (p : Session → Bool)
      → NoneActive p st
      → get_session c env req now st ≡ (ok (some user), st')
      → (s : Session) × (p s ≡ false)
        × (user.session_id ≡ s.session_id)
        × (user.admin_id ≡ s.admin_id)
  get_session-apart p quiet h =
      let (s, a, row) = get_session-some c env req now st st' user h in
      let (found, active, token, owned, enabled, live, awake, same) = row in
      let off : (p s && is_active s) ≡ false =
        any-find (is_token (c.sha256 req.cookie_token) st) (λ s. p s && is_active s) s st.sessions
          found quiet in
      (
        s,
        ground arith,
        ap (λ (u : SessionUser). u.session_id) same,
        ap (λ (u : SessionUser). u.admin_id) same ∙ owned,
      )

  -- Where no session of an id is active, no request is given it.
  get_session-quiet :
      (id : String)
      → IsQuiet id st
      → get_session c env req now st ≡ (ok (some user), st')
      → (user.session_id == id) ≡ false
  get_session-quiet id quiet h =
      let (s, apart, same, owned) = get_session-apart (has_session_id id) quiet h in rw same apart

  get_session-signed_out :
      (admin : String)
      → NoneActive (λ s. s.admin_id == admin) st
      → get_session c env req now st ≡ (ok (some user), st')
      → (user.admin_id == admin) ≡ false
  get_session-signed_out admin quiet h =
      let (s, apart, same, owned) = get_session-apart (λ s. s.admin_id == admin) quiet h in
      rw owned apart

-- A revoked session is dead: once no session of an id is active, then after any sequence of
-- logins, setups, look-ups, logouts, password changes and cleanups whose new sessions have other
-- ids, no request is given a session of this id.
pub Reach-get_session :
    (c : Crypto) (env : AuthEnv) (req : Request) (now : ℕ) (id : String) (st mid after : AuthState)
    (user : SessionUser)
    → NoneActive (has_session_id id) st
    → Reach id st mid
    → get_session c env req now mid ≡ (ok (some user), after)
    → (user.session_id == id) ≡ false
Reach-get_session c env req now id st mid after user quiet steps h =
    get_session-quiet c env req now mid after user id (Reach-IsQuiet id st mid steps quiet) h

revoke_where-admin :
    (admin : String) (now : ℕ) (st : AuthState)
    → NoneActive (λ s. s.admin_id == admin) (revoke_where (λ s. s.admin_id == admin) now st)
unfolding revoke_where
revoke_where-admin admin now st =
    any-update-revoked (λ s. s.admin_id == admin) now st.sessions (λ s. refl)

module _ (c : Crypto) (env : AuthEnv) (req : Request) (f : Fresh) (user : SessionUser) where
  -- After logoutAll no request is given a session of this administrator, until a new login.
  pub logout_all-get_session :
      (later : Request) (now : ℕ) (st after : AuthState) (seen : SessionUser)
      → get_session c env later now (logout_all c env req f user st).1 ≡ (ok (some seen), after)
      → (seen.admin_id == user.admin_id) ≡ false
  unfolding logout_all
  logout_all-get_session later now st after seen h =
      get_session-signed_out c env later now _ after seen user.admin_id
        (revoke_where-admin user.admin_id f.now st) h

  check-ok : (b : Bool) (e : Error) → check b e ≡ ok tt → b ≡ true
  check-ok true e h = refl
  check-ok false e h = cc

  check-not-ok : (b : Bool) (e : Error) → check (not b) e ≡ ok tt → b ≡ false
  check-not-ok true e h = cc
  check-not-ok false e h = refl

  enabled_admin-ok :
      (row : Option Admin) (a : Admin) → enabled_admin c env req f row ≡ ok a → row ≡ some a
  enabled_admin-ok none a h = cc
  enabled_admin-ok (some b) a h = let same : b ≡ a = cc in ap some same

  check_current-ok :
      (a : Admin) (matched : Result Bool) (x : Unit {0})
      → check_current c env req f a matched ≡ ok x
      → matched ≡ ok true
  check_current-ok a (err e) x h = cc
  check_current-ok a (ok b) x h = ap ok (check-ok b (app_error 401 invalid_credentials) h)

  -- What a change of the password has checked, and what it has written.
  abbrev pub IsChange :
      Option String
      → Option String
      → AuthState
      → AuthState
      → Admin
      → String
      → String
      → String
      → Type 0
  IsChange body_current body_new st after a current new hash =
      (find (λ a. (a.admin_id == user.admin_id) && not a.disabled) st.admins ≡ some a)
      × (bounded_password c body_current ≡ ok current)
      × (bounded_password c body_new ≡ ok new)
      × (validate_password c new ≡ ok tt)
      × ((current == new) ≡ false)
      × (matches c env req f a (stored_digest c env a current) ≡ ok true)
      × (password_digest c new f.salt (iterations_of env) env ≡ ok hash)
      × (after ≡ record st {
        admins =
            update (λ b. b.admin_id == user.admin_id)
              (λ b. record b {
                password_hash = hash;
                password_salt = base64_url f.salt;
                password_iterations = iterations_of env;
                password_scheme = password_scheme_v1;
                updated_at = f.now;
              })
              st.admins;
        sessions =
            update (λ s. s.admin_id == user.admin_id)
              (λ s. record s { revoked_at = coalesce s.revoked_at (some f.now) }) st.sessions;
      })

  -- A change of the password that succeeds has verified the current password against the stored
  -- digest of the enabled administrator; the new password is valid and another one. All that is
  -- written is the digest of the new password, with a fresh salt, the number of rounds and the
  -- scheme, for this administrator alone, and the time of revocation in each of their sessions that
  -- had none.
  pub change_password-ok :
      (body_current body_new : Option String) (st after : AuthState)
      → change_password c env req f user body_current body_new st ≡ (ok tt, after)
      → (a : Admin) × (current : String) × (new : String) × (hash : String) × IsChange body_current
          body_new st after a current new hash
  unfolding change_password replace_password revoke_where
  change_password-ok body_current body_new st after h =
      let row = find (λ a. (a.admin_id == user.admin_id) && not a.disabled) st.admins in
      let (current, is_current, h1) = lift-ok (bounded_password c body_current) _ st after tt h in
      let (new, is_new, h2) = lift-ok (bounded_password c body_new) _ st after tt h1 in
      let other = check (not (current == new)) (app_error 400 password_unchanged) in
      let bounds = lift (validate_password c new) in
      let (_, mid, h3, h4) = bind-ok (bounds >> lift other) _ st after tt h2 in
      let (_, h5, apart) = guard-ok bounds other st mid tt h3 in
      let valid : validate_password c new ≡ ok tt = ap (λ x. x.0) h5 in
      let at : st ≡ mid = ap (λ x. x.1) h5 in
      let (a, found, h6) = lift-ok (enabled_admin c env req f row) _ mid after tt h4 in
      let matched =
        check_current c env req f a (matches c env req f a (stored_digest c env a current)) in
      let (_, same, h7) = lift-ok matched _ mid after tt h6 in
      let (hash, is_hash, h8) =
        lift-ok (password_digest c new f.salt (iterations_of env) env) _ mid after tt h7 in
      let written : replace_password c env req f user hash mid ≡ after = ap (λ x. x.1) h8 in
      (
        a,
        current,
        new,
        hash,
        (
          enabled_admin-ok row a found,
          is_current,
          is_new,
          valid,
          check-not-ok (current == new) (app_error 400 password_unchanged) apart,
          check_current-ok a _ _ same,
          is_hash,
          sym written ∙ ap (replace_password c env req f user hash) (sym at),
        ),
      )

  -- After a change of the password that succeeds no request is given a session of this
  -- administrator that was opened before.
  pub change_password-get_session :
      (body_current body_new : Option String) (later : Request) (now : ℕ) (st mid after : AuthState)
      (seen : SessionUser)
      → change_password c env req f user body_current body_new st ≡ (ok tt, mid)
      → get_session c env later now mid ≡ (ok (some seen), after)
      → (seen.admin_id == user.admin_id) ≡ false
  change_password-get_session body_current body_new later now st mid after seen h given =
      let (a, current, new, hash, changed) = change_password-ok body_current body_new st mid h in
      let (found, is_current, is_new, valid, other, matched, is_hash, written) = changed in
      get_session-signed_out c env later now mid after seen user.admin_id
        (ap (λ (x : AuthState). any (λ s. (s.admin_id == user.admin_id) && is_active s) x.sessions)
            written
          ∙ any-update-revoked (λ s. s.admin_id == user.admin_id) f.now st.sessions (λ s. refl))
        given
