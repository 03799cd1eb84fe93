-- ===== src/Auth/LoginExamples.antt =====
-- Logins: one that succeeds, one that is turned away, and what they leave.
use mail_gable.Base.{any, count, ◌≤◌, arith, String, true, false, some, [], ◌∷◌, ◌==◌, ◌≡◌, refl}
use mail_gable.Store.Effects.{ok}
use mail_gable.Store.Keeps.{Refused}
use mail_gable.Auth.Tables.{Admin, Attempt, by_email, AuthState}
use mail_gable.Auth.Sessions.{create_session, is_active_of, request_ip_hash, subject_hash}
use mail_gable.Auth.Passwords.{password_digest, stored_digest, with_password, bounded_password}
use mail_gable.Helpers.{normalize_email}
use mail_gable.Auth.Handlers.{matches, is_limited, failures, login}
use mail_gable.Helpers.RoundTrip.{AreBytes}
use mail_gable.Auth.Limit.{HasUniqueIds, create_session-bound}
use mail_gable.Auth.Renewed.{with_password-matches}
use mail_gable.Auth.Admission.{IsAdmitted, login-ok, login-Refused}
use mail_gable.Auth.Samples.{crypto, settings, request, fresh, anna, session, state}

abbrev logged_in : AuthState
logged_in =
    (login crypto settings request fresh "anna@example.com" (some "correct horse battery") state).1

entered :
    login crypto settings request fresh "anna@example.com" (some "correct horse battery") state
    ≡ (ok "token-nine", logged_in)
unfolding login mail_gable.Auth.Sessions.require_origin bounded_password mail_gable.Helpers.encode
    request_ip_hash subject_hash mail_gable.Auth.Handlers.enforce_login_rate_limit failures
    mail_gable.Base.count mail_gable.Auth.Handlers.attempt_login
    mail_gable.Auth.Handlers.admin_by_email mail_gable.Base.find
    mail_gable.Auth.Passwords.stored_digest mail_gable.Auth.Passwords.upgrade_password_hash
    mail_gable.Auth.Tables.iterations_of mail_gable.Auth.Sessions.create_session
    mail_gable.Auth.Sessions.user_agent_hash
entered = refl

login-ok_example :
    (text : String) × (ip : String) × (email_hash : String) × (a : Admin) × ((bounded_password
          crypto
          (some "correct horse battery")
        ≡ ok text)
      × (request_ip_hash crypto settings request ≡ ok ip)
      × (subject_hash crypto settings "email" (normalize_email "anna@example.com") ≡ ok email_hash)
      × IsAdmitted crypto settings request fresh
          (normalize_email "anna@example.com")
          state
          logged_in
          "token-nine"
          text
          ip
          email_hash
          a)
login-ok_example =
    login-ok crypto settings request fresh "anna@example.com" (some "correct horse battery") state
      logged_in "token-nine" entered

abbrev wrong : Attempt
wrong = record {
  scope = by_email;
  subject_hash = "0123456789abcdef0123456789abcdef|email|anna@example.com";
  success = false;
  created_at = 1900000;
}

abbrev attacked : AuthState
attacked = record state {
  attempts = wrong ∷ wrong ∷ wrong ∷ wrong ∷ wrong ∷ wrong ∷ wrong ∷ wrong ∷ [];
}

ip_of : request_ip_hash crypto settings request ≡ ok "0123456789abcdef0123456789abcdef|192.0.2.1"
unfolding request_ip_hash mail_gable.Helpers.encode
ip_of = refl

hash_of :
    subject_hash crypto settings "email" (normalize_email "anna@example.com")
    ≡ ok "0123456789abcdef0123456789abcdef|email|anna@example.com"
unfolding subject_hash mail_gable.Helpers.encode normalize_email
hash_of = refl

limited :
    is_limited "0123456789abcdef0123456789abcdef|192.0.2.1"
      "0123456789abcdef0123456789abcdef|email|anna@example.com" 2000000 attacked
    ≡ true
unfolding failures mail_gable.Base.count
limited = refl

login-Refused_example :
    Refused
      (login crypto settings request fresh "anna@example.com" (some "correct horse battery"))
      attacked
login-Refused_example =
    login-Refused crypto settings request fresh "anna@example.com" (some "correct horse battery")
      "0123456789abcdef0123456789abcdef|192.0.2.1"
      "0123456789abcdef0123456789abcdef|email|anna@example.com" attacked ip_of hash_of limited

abbrev one_session : AuthState
one_session = record state { sessions = session "s2" "a2" "token-two" ∷ [] }

unique : HasUniqueIds one_session.sessions
unfolding mail_gable.Base.count
unique i = ground arith

unused : any (λ t. "s9" == t.session_id) one_session.sessions ≡ false
unfolding any
unused = refl

abbrev opened : AuthState
opened = (create_session crypto settings request fresh "a2" one_session).1

opens : create_session crypto settings request fresh "a2" one_session ≡ (ok "token-nine", opened)
unfolding create_session request_ip_hash mail_gable.Helpers.encode
    mail_gable.Auth.Sessions.user_agent_hash
opens = refl

create_session-bound_example : count (is_active_of "a2") opened.sessions ≤ 5
create_session-bound_example =
    create_session-bound crypto settings request fresh "a2" one_session opened "token-nine" unique
      unused opens

salt_bytes : AreBytes (1 ∷ 2 ∷ 3 ∷ [])
unfolding mail_gable.Base.all
salt_bytes = refl

digest :
    password_digest crypto "another long secret" (1 ∷ 2 ∷ 3 ∷ []) 8000 settings
    ≡ ok "another long secret"
unfolding password_digest mail_gable.Helpers.encode
digest = refl

with_password-matches_example :
    matches crypto settings request fresh
      (with_password crypto "another long secret" (1 ∷ 2 ∷ 3 ∷ []) 8000 2000000 anna)
      (stored_digest crypto settings
        (with_password crypto "another long secret" (1 ∷ 2 ∷ 3 ∷ []) 8000 2000000 anna)
        "another long secret")
    ≡ ok true
with_password-matches_example =
    with_password-matches crypto settings request fresh anna "another long secret"
      "another long secret" (1 ∷ 2 ∷ 3 ∷ []) 8000 2000000 salt_bytes digest
