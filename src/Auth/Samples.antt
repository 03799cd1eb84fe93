-- ===== src/Auth/Samples.antt =====
-- An administrator with two sessions, of which one is revoked, and another one with one session.
use mail_gable.Base.{String, false, none, some, [], ◌∷◌}
use mail_gable.Auth.Tables.{Admin, Session, AuthState, Crypto, AuthEnv, Request, Fresh, SessionUser}

abbrev pub crypto : Crypto
crypto = record {
  sha256 = λ s. s;
  derive = λ password salt n. password;
  derive_peppered = λ pepper password salt n. password;
  normalize_nfc = λ s. s;
}

abbrev pub pepper : String
pepper = "0123456789abcdef0123456789abcdef"

abbrev pub settings : AuthEnv
settings = record {
  app_origin = "https://mail.example.com";
  auth_pepper = pepper;
  admin_email = "";
  admin_bootstrap_token = "";
  password_iterations = "";
  session_hours = "";
  session_idle_minutes = "";
}

abbrev pub request : Request
request = record {
  origin = "https://mail.example.com";
  url_origin = "https://mail.example.com";
  hostname = "mail.example.com";
  ip = "192.0.2.1";
  user_agent = "agent";
  csrf_header = "";
  bootstrap_header = "";
  cookie_token = "token-two";
}

abbrev pub fresh : Fresh
fresh = record {
  now = 2000000;
  session_id = "s9";
  token = "token-nine";
  csrf_token = "csrf-nine";
  salt = 1 ∷ 2 ∷ 3 ∷ [];
  admin_id = "a9";
}

abbrev pub anna : Admin
anna = record {
  admin_id = "a1";
  email = "anna@example.com";
  password_hash = "correct horse battery";
  password_salt = 65 ∷ 81 ∷ 73 ∷ 68 ∷ [];
  password_iterations = 8000;
  password_scheme = "pbkdf2-sha256+hmac-sha256-v1";
  disabled = false;
  last_login_at = none;
  updated_at = 1000000;
}

abbrev pub session : String → String → String → Session
session id admin token = record {
  session_id = id;
  admin_id = admin;
  token_hash = token;
  csrf_token = "csrf";
  ip_hash = "";
  user_agent_hash = "";
  created_at = 1000000;
  last_seen_at = 1900000;
  expires_at = 9000000;
  revoked_at = none;
}

abbrev pub state : AuthState
state = record {
  admins = anna ∷ record anna { admin_id = "a2"; email = "bert@example.com" } ∷ [];
  sessions =
      record (session "s1" "a1" "token-one") { revoked_at = some 1500000 }
      ∷ session "s2" "a2" "token-two"
      ∷ [];
  attempts = [];
}

abbrev pub user : SessionUser
user = record {
  admin_id = "a1";
  email = "anna@example.com";
  csrf_token = "csrf";
  session_id = "s1";
}

abbrev pub other_user : SessionUser
other_user = record {
  admin_id = "a2";
  email = "bert@example.com";
  csrf_token = "csrf";
  session_id = "s2";
}
