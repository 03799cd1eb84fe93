-- ===== src/Auth/Examples.antt =====
-- Sessions that are looked up behind a revocation.
use mail_gable.Base.{any, String, false, some, ◌==◌, ◌≡◌, refl}
use mail_gable.Store.Effects.{ok}
use mail_gable.Auth.Tables.{Admin, AuthState}
use mail_gable.Auth.Sessions.{get_session}
use mail_gable.Auth.Passwords.{stored_digest, bounded_password}
use mail_gable.Auth.Handlers.{replace_password, change_password, logout_all}
use mail_gable.Auth.Steps.{here, next, looks_up}
use mail_gable.Auth.Revoking.{NoneActive, has_session_id}
use mail_gable.Auth.Ending.{
  change_password-ok, IsChange, Reach-get_session, logout_all-get_session,
  change_password-get_session,
}
use mail_gable.Auth.Samples.{crypto, settings, request, fresh, state, user, other_user}

given : get_session crypto settings request 2000000 state ≡ (ok (some other_user), state)
unfolding get_session mail_gable.Auth.Sessions.find_session mail_gable.Auth.Sessions.check_agent
    mail_gable.Auth.Sessions.check_idle mail_gable.Auth.Sessions.touch
    mail_gable.Auth.Sessions.user_agent_hash mail_gable.Auth.Sessions.require_auth_pepper
    mail_gable.Auth.Tables.idle_minutes_of mail_gable.Auth.Tables.hours_of mail_gable.Helpers.as_int
    mail_gable.Base.find mail_gable.Base.any mail_gable.Helpers.byte_length
    mail_gable.Helpers.encode
given = refl

quiet : NoneActive (has_session_id "s1") state
unfolding mail_gable.Base.any
quiet = refl

again :
    get_session crypto settings request 2000000
      (get_session crypto settings request 2000000 state).1
    ≡ (ok (some other_user), state)
again = rw given given

abbrev after_logout : AuthState
after_logout = (logout_all crypto settings request fresh user state).1

given_later :
    get_session crypto settings request 2000000 after_logout ≡ (ok (some other_user), after_logout)
unfolding get_session mail_gable.Auth.Sessions.find_session mail_gable.Base.find logout_all
    mail_gable.Auth.Sessions.revoke_where mail_gable.Base.update mail_gable.Base.any
    mail_gable.Auth.Sessions.user_agent_hash mail_gable.Helpers.encode
    mail_gable.Auth.Sessions.check_agent mail_gable.Auth.Sessions.check_idle
    mail_gable.Auth.Tables.idle_minutes_of
given_later = refl

abbrev after_change : AuthState
after_change = replace_password crypto settings request fresh user "another long secret" state

changed :
    change_password crypto settings request fresh user
      (some "correct horse battery")
      (some "another long secret")
      state
    ≡ (ok tt, after_change)
unfolding change_password mail_gable.Auth.Passwords.bounded_password mail_gable.Helpers.encode
    mail_gable.Auth.Passwords.validate_password mail_gable.Base.find
    mail_gable.Auth.Passwords.stored_digest
changed = refl

-- a step of a look-up, behind which the other session is given
Reach-get_session_example : ("s2" == "s1") ≡ false
Reach-get_session_example =
    Reach-get_session crypto settings request 2000000 "s1" state
      (get_session crypto settings request 2000000 state).1 state other_user quiet
      (next here (looks_up crypto settings request 2000000)) again

logout_all-get_session_example : ("a2" == "a1") ≡ false
logout_all-get_session_example =
    logout_all-get_session crypto settings request fresh user request 2000000 state after_logout
      other_user given_later

change_password-ok_example :
    (a : Admin) × (current : String) × (new : String) × (hash : String) × IsChange crypto settings
      request fresh user
      (some "correct horse battery")
      (some "another long secret")
      state
      after_change
      a
      current
      new
      hash
change_password-ok_example =
    change_password-ok crypto settings request fresh user (some "correct horse battery")
      (some "another long secret") state after_change changed

still_given :
    get_session crypto settings request 2000000 after_change ≡ (ok (some other_user), after_change)
unfolding get_session mail_gable.Auth.Sessions.find_session mail_gable.Base.find replace_password
    mail_gable.Auth.Sessions.revoke_where mail_gable.Base.update mail_gable.Base.any
    mail_gable.Auth.Sessions.user_agent_hash mail_gable.Helpers.encode
    mail_gable.Auth.Sessions.check_agent mail_gable.Auth.Sessions.check_idle
    mail_gable.Auth.Tables.idle_minutes_of
still_given = refl

change_password-get_session_example : ("a2" == "a1") ≡ false
change_password-get_session_example =
    change_password-get_session crypto settings request fresh user (some "correct horse battery")
      (some "another long secret") request 2000000 state after_change after_change other_user
      changed still_given
