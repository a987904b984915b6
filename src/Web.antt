-- ===== src/Web.antt =====
-- src/web.rs: the web server. Here: what its parts share, the session state, and the answers.
pub mod Request
pub mod Session
pub mod Form
pub mod Login
pub mod Serve
pub mod Page
pub mod Browser
mod Tests
use jzf407_rust.Prelude.{ℕ, Option}

-- A computation that may panic: on this board, a reset (`panic_persist` keeps the message).
pub data Run {ℓ} (A : Type ℓ) : Type ℓ where
  panic : Run A
  value : A → Run A

infixl 5 ◌>>=◌
abbrev pub ◌>>=◌ {ℓ ℓ'} : {X : Type ℓ} {Y : Type ℓ'} → Run X → (X → Run Y) → Run Y
value x >>= next = next x
panic >>= next = panic

-- The five atomics, each a `u32`.
pub record SessionState : Type 0 where
  pub token_hi : ℕ
  pub token_lo : ℕ
  pub created : ℕ
  pub fail_count : ℕ
  pub fail_last : ℕ

abbrev pub initial : SessionState
initial = record { token_hi = 0; token_lo = 0; created = 0; fail_count = 0; fail_last = 0 }

abbrev pub login_max_fails : ℕ
login_max_fails = 5

abbrev pub login_lockout_secs : ℕ
login_lockout_secs = 60

abbrev pub session_ttl_secs : ℕ
session_ttl_secs = 900

-- The readings of `Instant::now().as_secs()` while one request is served, in order.
abbrev pub Clock : Type 0
Clock = ℕ → ℕ

-- `HTTP_401_LOGIN` and `HTTP_401_EXPIRE_COOKIE`.
pub data LoginStatus : Type 0 where
  login_401 expire_cookie_401 : LoginStatus

-- `LOGIN_ERROR` and `LOGIN_LOCKED`.
pub data LoginMessage : Type 0 where
  login_error login_locked : LoginMessage

-- What a handler sends: the constant responses and pages, by name.
pub data Reply : Type 0 where
  nothing http_400 http_404 http_500 http_303_home http_303_logout http_401_login : Reply
  logged_in : ℕ → Reply
  login_form : LoginStatus → Option LoginMessage → Reply
  dashboard event_stream state_json : Reply
  rebooting_page saved_page : Reply
