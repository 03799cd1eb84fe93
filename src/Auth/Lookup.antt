-- ===== src/Auth/Lookup.antt =====
-- Which session a request is given.
use mail_gable.Base.{
  ℕ, ◌*◌, ◌<◌, String, true, false, Option, none, some, ◌==◌, ◌≡◌, refl, ◌∙◌, sym, ap, ◌&&◌, ◌||◌,
  not, arith, leb, inl, inr, Bool-cases, find, find-holds, eq_iff,
}
use mail_gable.Store.Effects.{ok, lift}
use mail_gable.Store.Inversion.{bind-ok, none-ne-some, some-injective}
use mail_gable.Auth.Tables.{
  Admin, Session, AuthState, Crypto, AuthEnv, Request, SessionUser, idle_minutes_of,
}
use mail_gable.Auth.Sessions.{
  is_active, is_token, pair_with, admin_of, find_session, user_of, is_idle, check_idle, check_agent,
  check_row, get_session, user_agent_hash, revoke_session, touch,
}

-- The row of a session that a request is given, and the administrator whose it is.
abbrev pub IsSessionOf :
    Crypto → AuthEnv → Request → ℕ → AuthState → SessionUser → Session → Admin → Type 0
IsSessionOf c env req now st user s a =
    (find (is_token (c.sha256 req.cookie_token) st) st.sessions ≡ some s)
    × (is_active s ≡ true)
    × (s.token_hash ≡ c.sha256 req.cookie_token)
    × (a.admin_id ≡ s.admin_id)
    × (a.disabled ≡ false)
    × (now < s.expires_at)
    × (is_idle (idle_minutes_of env * 60000) now s ≡ false)
    × (user ≡ user_of s a)

module _ (c : Crypto) (env : AuthEnv) (req : Request) (now : ℕ) where
  check_idle-some :
      (s : Session) (a : Admin) (user : SessionUser) (st st' : AuthState)
      → check_idle env now s a st ≡ (ok (some user), st')
      → (is_idle (idle_minutes_of env * 60000) now s ≡ false) × (user ≡ user_of s a)
  unfolding check_idle
  check_idle-some s a user st st' h =
      elim (Bool-cases (is_idle (idle_minutes_of env * 60000) now s)) [
        | inl idle ↦
            absurd (none-ne-some user (revoke_session s.session_id now st) st' (rw idle at h))
        | inr awake ↦
            (awake, sym (some-injective (user_of s a) user (touch s now st) st' (rw awake at h)))
      ]

  check_agent-some :
      (s : Session) (a : Admin) (ua : String) (user : SessionUser) (st st' : AuthState)
      → check_agent env now s a ua st ≡ (ok (some user), st')
      → (is_idle (idle_minutes_of env * 60000) now s ≡ false) × (user ≡ user_of s a)
  unfolding check_agent
  check_agent-some s a ua user st st' h =
      elim (Bool-cases (not (s.user_agent_hash == "") && not (s.user_agent_hash == ua))) [
        | inl other ↦
            absurd (none-ne-some user (revoke_session s.session_id now st) st' (rw other at h))
        | inr same ↦ check_idle-some s a user st st' (rw same at h)
      ]

  abbrev or_pair : Session × Admin → Option (Session × Admin) → Session × Admin
  or_pair p none = p
  or_pair p (some q) = q

  find_session-some :
      (s : Session) (a : Admin) (st : AuthState)
      → find_session (c.sha256 req.cookie_token) st ≡ some (s, a)
      → (find (is_token (c.sha256 req.cookie_token) st) st.sessions ≡ some s)
        × (a.admin_id ≡ s.admin_id)
  unfolding find_session
  find_session-some s a st h =
      go (find (is_token (c.sha256 req.cookie_token) st) st.sessions) refl h
    where
      go :
          (found : Option Session)
          → find (is_token (c.sha256 req.cookie_token) st) st.sessions ≡ found
          → admin_of st.admins found ≡ some (s, a)
          → (find (is_token (c.sha256 req.cookie_token) st) st.sessions ≡ some s)
            × (a.admin_id ≡ s.admin_id)
      go none e p = cc
      go (some r) e p = owner r e (find (λ b. b.admin_id == r.admin_id) st.admins) refl p
        where
          owner :
              (r : Session)
              → find (is_token (c.sha256 req.cookie_token) st) st.sessions ≡ some r
              → (b : Option Admin) → find (λ b. b.admin_id == r.admin_id) st.admins ≡ b
              → pair_with r b ≡ some (s, a)
              → (find (is_token (c.sha256 req.cookie_token) st) st.sessions ≡ some s)
                × (a.admin_id ≡ s.admin_id)
          owner r e none there q = cc
          owner r e (some b) there q =
              let same : Path (Session × Admin) (r, b) (s, a) = ap (or_pair (s, a)) q in
              let is_s : r ≡ s = ap (λ x. x.0) same in
              let is_a : b ≡ a = ap (λ x. x.1) same in
              (
                e ∙ ap some is_s,
                ap (λ (x : Admin). x.admin_id) (sym is_a)
                    ∙ (eq_iff b.admin_id r.admin_id).0 (find-holds _ st.admins b there)
                    ∙ ap (λ (x : Session). x.admin_id) is_s,
              )

  check_row-some :
      (row : Option (Session × Admin)) (user : SessionUser) (st st' : AuthState)
      → check_row c env req now row st ≡ (ok (some user), st')
      → (s : Session) × (a : Admin) × (row ≡ some (s, a))
        × (a.disabled ≡ false)
        × (now < s.expires_at)
        × (is_idle (idle_minutes_of env * 60000) now s ≡ false)
        × (user ≡ user_of s a)
  check_row-some none user st st' h = absurd (none-ne-some user st st' h)
  check_row-some (some (s, a)) user st st' h =
      elim (Bool-cases (a.disabled || leb s.expires_at now)) [
        | inl over ↦
            absurd (none-ne-some user (revoke_session s.session_id now st) st' (rw over at h))
        | inr live ↦
            let (ua, mid, hashed, later) =
              bind-ok (lift (user_agent_hash c env req)) (check_agent env now s a) st st'
                (some user) (rw live at h) in
            let (awake, same) = check_agent-some s a ua user mid st' later in
            (s, a, refl, ground arith, ground arith, awake, same)
      ]

  -- A request is given a session only by a token whose hash an active session holds; that session
  -- is unexpired, not idle for longer than the limit, and its administrator is enabled; the answer
  -- names this administrator.
  pub get_session-some :
      (st st' : AuthState) (user : SessionUser)
      → get_session c env req now st ≡ (ok (some user), st')
      → (s : Session) × (a : Admin) × IsSessionOf c env req now st user s a
  unfolding get_session
  get_session-some st st' user h = elim (Bool-cases (req.cookie_token == "")) [
    | inl bare ↦ absurd (none-ne-some user st st' (rw bare at h))
    | inr sent ↦
        let (s, a, row, enabled, live, awake, same) =
          check_row-some (find_session (c.sha256 req.cookie_token) st) user st st' (rw sent at h) in
        let (found, owned) = find_session-some s a st row in
        let holds = find-holds (is_token (c.sha256 req.cookie_token) st) st.sessions s found in
        (
          s,
          a,
          (
            found,
            ground arith,
            (eq_iff s.token_hash (c.sha256 req.cookie_token)).0 (ground arith),
            owned,
            enabled,
            live,
            awake,
            same,
          ),
        )
  ]
