-- ===== src/Auth/Revoking.antt =====
-- A session that is revoked stays revoked, and a new password revokes every session.
use mail_gable.Base.{
  ℕ, String, Bool, false, Option, none, some, List, [], ◌∷◌, ◌==◌, ◌≡◌, refl, ◌∙◌, ◌&&◌, ◌||◌,
  arith, inl, inr, Bool-cases, any, any-append, leb, update, delete,
}
use mail_gable.Store.Inversion.{keeps-lift}
use mail_gable.Auth.Tables.{Admin, Session, AuthState, Crypto, AuthEnv, Request, Fresh}
use mail_gable.Auth.Sessions.{
  is_active, revoked, revoke_where, trim_sessions, create_session, new_session, open_session,
  check_idle, check_agent, check_row, touch, get_session, request_ip_hash, user_agent_hash,
  find_session,
}
use mail_gable.Auth.Handlers.{cleanup_auth}

-- No active session is in the class.
abbrev pub NoneActive : (Session → Bool) → AuthState → Type 0
NoneActive p st = any (λ s. p s && is_active s) st.sessions ≡ false

module _ (p : Session → Bool) where
  -- An update that moves no session into the class, and activates none, keeps the class inactive.
  any-update_active :
      (q : Session → Bool) (f : Session → Session) (ss : List Session)
      → ((s : Session) → (p s && is_active s) ≡ false → (p (f s) && is_active (f s)) ≡ false)
      → any (λ s. p s && is_active s) ss ≡ false
      → any (λ s. p s && is_active s) (update q f ss) ≡ false
  unfolding any update
  any-update_active q f [] h e = refl
  any-update_active q f (s ∷ ss) h e =
      let quiet : (p s && is_active s) ≡ false = ground arith in
      let kept : (p (f s) && is_active (f s)) ≡ false = h s quiet in
      ground (arith, any-update_active q f ss h)

  any-delete_active :
      (q : Session → Bool) (ss : List Session)
      → any (λ s. p s && is_active s) ss ≡ false
      → any (λ s. p s && is_active s) (delete q ss) ≡ false
  unfolding any delete
  any-delete_active q [] e = refl
  any-delete_active q (s ∷ ss) e = ground (arith, any-delete_active q ss)

  -- A revocation of the whole class leaves none of it active.
  pub any-update-revoked :
      (now : ℕ) (ss : List Session)
      → ((s : Session) → p (revoked now s) ≡ p s)
      → any (λ s. p s && is_active s) (update p (revoked now) ss) ≡ false
  unfolding any update
  any-update-revoked now [] same = refl
  any-update-revoked now (s ∷ ss) same = ground (arith, same s, any-update-revoked now ss same)

-- The sessions whose revocation is asked about: those of one id.
abbrev pub has_session_id : String → Session → Bool
has_session_id id s = s.session_id == id

module _ (id : String) where
  pub revoke_where-NoneActive :
      (q : Session → Bool) (now : ℕ) (st : AuthState)
      → NoneActive (has_session_id id) st
      → NoneActive (has_session_id id) (revoke_where q now st)
  unfolding revoke_where
  revoke_where-NoneActive q now st h =
      any-update_active (has_session_id id) q (revoked now) st.sessions (λ s e. ground arith) h

  touch-NoneActive :
      (s : Session) (now : ℕ) (st : AuthState)
      → NoneActive (has_session_id id) st
      → NoneActive (has_session_id id) (touch s now st)
  unfolding touch
  touch-NoneActive s now st h = ground (
    arith,
    any-update_active (has_session_id id) (λ r. r.session_id == s.session_id)
        (λ r. record r { last_seen_at = now }) st.sessions (λ r e. e) h,
  )

  trim_sessions-NoneActive :
      (admin : String) (now : ℕ) (st : AuthState)
      → NoneActive (has_session_id id) st
      → NoneActive (has_session_id id) (trim_sessions admin now st)
  unfolding trim_sessions
  trim_sessions-NoneActive admin now st h =
      any-update_active (has_session_id id) _ (λ s. record s { revoked_at = some now }) st.sessions
        (λ s e. ground arith) h

  pub cleanup_auth-NoneActive :
      (now : ℕ) (st : AuthState)
      → NoneActive (has_session_id id) st
      → NoneActive (has_session_id id) (cleanup_auth now st)
  unfolding cleanup_auth
  cleanup_auth-NoneActive now st h = any-delete_active (has_session_id id) _ st.sessions h

  open_session-NoneActive :
      (s : Session) (now : ℕ) (st : AuthState)
      → (s.session_id == id) ≡ false
      → NoneActive (has_session_id id) st
      → NoneActive (has_session_id id) (open_session s now st)
  unfolding open_session any
  open_session-NoneActive s now st apart h =
      any-append (λ s. has_session_id id s && is_active s) st.sessions (s ∷ []) ∙ rw (h, apart) refl

  module _ (c : Crypto) (env : AuthEnv) (req : Request) where
    check_agent-NoneActive :
        (now : ℕ) (s : Session) (a : Admin) (ua : String) (st : AuthState)
        → NoneActive (has_session_id id) st
        → NoneActive (has_session_id id) (check_agent env now s a ua st).1
    unfolding check_agent check_idle
    check_agent-NoneActive now s a ua st h = ground (
      arith,
      revoke_where-NoneActive (λ r. r.session_id == s.session_id) now st h,
      touch-NoneActive s now st h,
    )

    check_row-NoneActive :
        (now : ℕ) (row : Option (Session × Admin)) (st : AuthState)
        → NoneActive (has_session_id id) st
        → NoneActive (has_session_id id) (check_row c env req now row st).1
    check_row-NoneActive now none st h = h
    check_row-NoneActive now (some (s, a)) st h =
        elim (Bool-cases (a.disabled || leb s.expires_at now)) [
          | inl over ↦
              rw over (revoke_where-NoneActive (λ r. r.session_id == s.session_id) now st h)
          | inr live ↦ rw live (
              keeps-lift (NoneActive (has_session_id id)) (user_agent_hash c env req)
                (check_agent env now s a) (check_agent-NoneActive now s a) st h)
        ]

    pub get_session-NoneActive :
        (now : ℕ) (st : AuthState)
        → NoneActive (has_session_id id) st
        → NoneActive (has_session_id id) (get_session c env req now st).1
    unfolding get_session
    get_session-NoneActive now st h =
        ground (arith, check_row-NoneActive now (find_session (c.sha256 req.cookie_token) st) st h)

    pub create_session-NoneActive :
        (f : Fresh) (admin : String)
        → (f.session_id == id) ≡ false
        → (st : AuthState) → NoneActive (has_session_id id) st
        → NoneActive (has_session_id id) (create_session c env req f admin st).1
    unfolding create_session
    create_session-NoneActive f admin apart =
        keeps-lift IsQuiet (request_ip_hash c env req) _ λ ip_hash.
          keeps-lift IsQuiet (user_agent_hash c env req) _ λ ua_hash st h.
            trim_sessions-NoneActive admin f.now
              (open_session (new_session env f c admin ip_hash ua_hash) f.now st)
              (open_session-NoneActive (new_session env f c admin ip_hash ua_hash) f.now st apart h)
      where
        IsQuiet : AuthState → Type 0
        IsQuiet = NoneActive (has_session_id id)
