-- ===== src/Auth/Tables.antt =====
-- The tables of the authentication, and what a request brings along. A missing header is "".
-- Hashes are parameters: `Crypto` has the digests of WebCrypto and the normalization of Unicode.
-- timingSafeEqual is written `==`, which it is (Helpers/Equality).
use mail_gable.Base.{ℕ, ◌*◌, String, Bool, Option, List}
use mail_gable.Helpers.{as_int}

pub record Admin : Type 0 where
  pub admin_id : String
  pub email : String
  pub password_hash : String
  pub password_salt : List ℕ
  pub password_iterations : ℕ
  pub password_scheme : String
  pub disabled : Bool
  pub last_login_at : Option ℕ
  pub updated_at : ℕ

pub record Session : Type 0 where
  pub session_id : String
  pub admin_id : String
  pub token_hash : String
  pub csrf_token : String
  pub ip_hash : String
  pub user_agent_hash : String
  pub created_at : ℕ
  pub last_seen_at : ℕ
  pub expires_at : ℕ
  pub revoked_at : Option ℕ

pub data Scope : Type 0 where
  by_ip by_email : Scope

pub record Attempt : Type 0 where
  pub scope : Scope
  pub subject_hash : String
  pub success : Bool
  pub created_at : ℕ

pub record AuthState : Type 0 where
  pub admins : List Admin
  pub sessions : List Session
  pub attempts : List Attempt

-- sha256 of a text; PBKDF2 of a password, a salt and a number of iterations, plain and behind an
-- HMAC under the pepper
pub record Crypto : Type 0 where
  pub sha256 : String → String
  pub derive : String → List ℕ → ℕ → String
  pub derive_peppered : String → String → List ℕ → ℕ → String
  pub normalize_nfc : String → String

pub record AuthEnv : Type 0 where
  pub app_origin : String
  pub auth_pepper : String
  pub admin_email : String
  pub admin_bootstrap_token : String
  pub password_iterations : String
  pub session_hours : String
  pub session_idle_minutes : String

pub record Request : Type 0 where
  pub origin : String
  pub url_origin : String
  pub hostname : String
  pub ip : String
  pub user_agent : String
  pub csrf_header : String
  pub bootstrap_header : String
  pub cookie_token : String

-- the clock and the random values of a request
pub record Fresh : Type 0 where
  pub now : ℕ
  pub session_id : String
  pub token : String
  pub csrf_token : String
  pub salt : List ℕ
  pub admin_id : String

pub record SessionUser : Type 0 where
  pub admin_id : String
  pub email : String
  pub csrf_token : String
  pub session_id : String

unfoldable pub iterations_of : AuthEnv → ℕ
unfolding as_int
iterations_of env = as_int env.password_iterations 8000 8000 100000

unfoldable pub hours_of : AuthEnv → ℕ
unfolding as_int
hours_of env = as_int env.session_hours 12 1 72

unfoldable pub idle_minutes_of : AuthEnv → ℕ
unfolding as_int hours_of
idle_minutes_of env = as_int env.session_idle_minutes 60 0 (hours_of env * 60)
