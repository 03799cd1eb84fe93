-- ===== src/Auth/Limit.antt =====
-- The number of active sessions of an administrator.
use mail_gable.Base.{
  ℕ, zero, suc, ◌+◌, ◌≤◌, String, Bool, false, some, List, [], ◌∷◌, ◌++◌, ◌==◌, ◌≡◌, refl, sym, ap,
  not, ◌&&◌, ◌||◌, arith, any, count, update, length, map, take, subst, where_rows, eq_iff,
  Bool-cases, inl, inr,
}
use mail_gable.Store.Effects.{ok}
use mail_gable.Store.Inversion.{lift-ok}
use mail_gable.Auth.Tables.{Session, AuthState, Crypto, AuthEnv, Request, Fresh}
use mail_gable.Auth.Sessions.{
  is_active_of, has_id, kept_ids, newest_first, trim_sessions, open_session, new_session,
  create_session, request_ip_hash, user_agent_hash,
}

-- The ids of the sessions are distinct, as the primary key demands.
abbrev pub HasUniqueIds : List Session → Type 0
HasUniqueIds ss = (i : String) → count (λ s. i == s.session_id) ss ≤ 1

module _ (p : Session → Bool) where
  count-has_id_nothing : (ss : List Session) → count (λ s. p s && has_id [] s.session_id) ss ≤ 0
  unfolding count any
  count-has_id_nothing [] = ground arith
  count-has_id_nothing (s ∷ ss) = ground (arith, count-has_id_nothing ss)

  count-has_id_step :
      (i : String) (ids : List String) (ss : List Session)
      → count (λ s. p s && ((i == s.session_id) || has_id ids s.session_id)) ss
        ≤ count (λ s. i == s.session_id) ss + count (λ s. p s && has_id ids s.session_id) ss
  unfolding count
  count-has_id_step i ids [] = ground arith
  count-has_id_step i ids (s ∷ ss) = ground (arith, count-has_id_step i ids ss)

  count-has_id :
      (ids : List String) (ss : List Session)
      → HasUniqueIds ss
      → count (λ s. p s && has_id ids s.session_id) ss ≤ length ids
  unfolding any
  count-has_id [] ss unique = count-has_id_nothing ss
  count-has_id (i ∷ ids) ss unique =
      ground (arith, count-has_id_step i ids ss, unique i, count-has_id ids ss unique)

length-take :
    (n : ℕ) (ss : List Session) → length (map (λ (s : Session). s.session_id) (take n ss)) ≤ n
length-take n [] = ground arith
length-take zero (s ∷ ss) = ground arith
length-take (suc n) (s ∷ ss) = ground (arith, length-take n ss)

module _ (admin : String) (now : ℕ) where
  count-trimmed :
      (ids : List String) (ss : List Session)
      → count (is_active_of admin) (
          update
            (λ s. is_active_of admin s && not (has_id ids s.session_id))
            (λ s. record s { revoked_at = some now })
            ss)
        ≡ count (λ s. is_active_of admin s && has_id ids s.session_id) ss
  unfolding count update
  count-trimmed ids [] = refl
  count-trimmed ids (s ∷ ss) = ground (arith, count-trimmed ids ss)

  trim_sessions-bound :
      (st : AuthState)
      → HasUniqueIds st.sessions
      → count (is_active_of admin) (trim_sessions admin now st).sessions ≤ 5
  unfolding trim_sessions kept_ids
  trim_sessions-bound st unique =
      let ids = kept_ids admin st.sessions in
      let few : length ids ≤ 5 =
        length-take 5 (newest_first (where_rows (is_active_of admin) st.sessions)) in
      let kept = count-has_id (is_active_of admin) ids st.sessions unique in
      rw (count-trimmed ids st.sessions) (omega arith)

count-append :
    (p : Session → Bool) (xs ys : List Session) → count p (xs ++ ys) ≡ count p xs + count p ys
unfolding count
count-append p [] ys = ground arith
count-append p (x ∷ xs) ys = ground (arith, count-append p xs ys)

any-count : (p : Session → Bool) (xs : List Session) → any p xs ≡ false → count p xs ≡ 0
unfolding any count
any-count p [] h = refl
any-count p (x ∷ xs) h = ground (arith, any-count p xs)

open_session-HasUniqueIds :
    (s : Session) (now : ℕ) (st : AuthState)
    → HasUniqueIds st.sessions
    → any (λ t. s.session_id == t.session_id) st.sessions ≡ false
    → HasUniqueIds (open_session s now st).sessions
unfolding open_session count
open_session-HasUniqueIds s now st unique fresh i =
    rw (count-append (λ t. i == t.session_id) st.sessions (s ∷ []))
      (elim (Bool-cases (i == s.session_id)) [
        | inr other ↦ ground (arith, unique i)
        | inl same ↦
            let e : s.session_id ≡ i = sym ((eq_iff i s.session_id).0 same) in
            let none' : any (λ t. i == t.session_id) st.sessions ≡ false =
              subst (λ x. any (λ t. x == t.session_id) st.sessions ≡ false) e fresh in
            ground (arith, any-count (λ t. i == t.session_id) st.sessions none')
      ])

-- Behind a login an administrator has at most five active sessions, the sessions in the table
-- having distinct ids and the new one another one.
pub create_session-bound :
    (c : Crypto) (env : AuthEnv) (req : Request) (f : Fresh) (admin : String) (st after : AuthState)
    (token : String)
    → HasUniqueIds st.sessions
    → any (λ t. f.session_id == t.session_id) st.sessions ≡ false
    → create_session c env req f admin st ≡ (ok token, after)
    → count (is_active_of admin) after.sessions ≤ 5
unfolding create_session
create_session-bound c env req f admin st after token unique fresh h =
    let (ip, e1, h1) = lift-ok (request_ip_hash c env req) _ st after token h in
    let (ua, e2, h2) = lift-ok (user_agent_hash c env req) _ st after token h1 in
    let opened = open_session (new_session env f c admin ip ua) f.now st in
    let same : trim_sessions admin f.now opened ≡ after = ap (λ x. x.1) h2 in
    subst (λ (x : AuthState). count (is_active_of admin) x.sessions ≤ 5) same
      (trim_sessions-bound admin f.now opened
        (open_session-HasUniqueIds (new_session env f c admin ip ua) f.now st unique fresh))
