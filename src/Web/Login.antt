-- ===== src/Web/Login.antt =====
-- src/web.rs: who may pass, and what the others see.
pub mod Lockout
pub mod Credentials
pub mod Bounded
pub mod Ended
mod Tests
use jzf407_rust.Prelude.{
  ℕ, ◌+◌, ◌-◌, ◌%◌, ◌^◌, Bool, true, false, ◌&&◌, Option, none, some, Bytes, bytes_eq, ltb, leb,
  if◌then◌else◌, is_some,
}
use jzf407_rust.Text.{codes}
use jzf407_rust.Auth.{basic_token}
use jzf407_rust.Web.{
  Run, value, ◌>>=◌, SessionState, login_max_fails, login_lockout_secs, Clock, LoginStatus,
  login_401, expire_cookie_401, login_error, login_locked, Reply, http_401_login, logged_in,
  login_form,
}
use jzf407_rust.Web.Request.{ParsedRequest, body, refreshes_session, extract_cookie}
use jzf407_rust.Web.Session.{cookie_name, mint_session_token, store_token, validate_session}
use jzf407_rust.Web.Form.{parse_login_form}

unfoldable pub login_is_locked : ℕ → ℕ → ℕ → Bool
login_is_locked now fails last_fail =
    leb login_max_fails fails && ltb (now - last_fail) login_lockout_secs

abbrev both_match : Bytes → Option Bytes × Option Bytes → Bool
both_match expected (some user, some pass) = bytes_eq (basic_token user pass) expected
both_match expected _ = false

abbrev body_matches : Bytes → Option Bytes → Bool
body_matches expected none = false
body_matches expected (some b) = both_match expected (parse_login_form b)

unfoldable pub login_credentials_match : ParsedRequest → Bytes → Bool
login_credentials_match r expected = body_matches expected (body r)

-- `complete_login`; the clock is read twice, for the token and for the time of the session.
unfoldable pub complete_login : ℕ → ℕ → ℕ → SessionState → SessionState × Reply
complete_login seed minted stored s =
    let new_token = mint_session_token ((seed + minted) % 2 ^ 64) in
    (
      record (store_token new_token s) { created = stored % 2 ^ 32; fail_count = 0 },
      logged_in new_token,
    )

-- `fetch_add(1)` wraps, and `+ 1` on the old count would overflow only there.
unfoldable pub reject_login : ℕ → SessionState → SessionState × Reply
reject_login now s =
    let new_fails = s.fail_count + 1 in
    (
      record s { fail_count = new_fails % 2 ^ 32; fail_last = now % 2 ^ 32 },
      login_form login_401
          (some (if leb login_max_fails new_fails then login_locked else login_error)),
    )

-- `if fails >= LOGIN_MAX_FAILS { LOGIN_FAIL_COUNT.store(0) }`
abbrev pub forgive : SessionState → SessionState
forgive s = if leb login_max_fails s.fail_count then record s { fail_count = 0 } else s

unfoldable pub handle_login :
    ParsedRequest → Bytes → ℕ → Clock → SessionState → SessionState × Reply
handle_login r expected seed clock s =
    if login_is_locked (clock 1) s.fail_count s.fail_last
    then (s, login_form login_401 (some login_locked))
    else (if login_credentials_match r expected
        then complete_login seed (clock 2) (clock 3) (forgive s)
        else reject_login (clock 2) (forgive s))

abbrev status_for : Option Bytes → LoginStatus
status_for none = login_401
status_for (some cookie) = expire_cookie_401

unfoldable pub show_login_form : Bytes → Run Reply
show_login_form req =
    extract_cookie req cookie_name >>= λ cookie. value (login_form (status_for cookie) none)

unfoldable pub handle_unauthenticated :
    ParsedRequest → Bytes → ℕ → Clock → SessionState → Run (SessionState × Reply)
handle_unauthenticated r expected seed clock s =
    if bytes_eq r.method (codes "POST") && bytes_eq r.path (codes "/login")
    then value (handle_login r expected seed clock s)
    else (if bytes_eq r.path (codes "/events")
        then value (s, http_401_login)
        else (show_login_form r.raw >>= λ reply. value (s, reply)))

-- What `authenticate_request` leaves: the session, and the answer of a request that may not pass.
unfoldable pub let_pass :
    ParsedRequest → Bytes → ℕ → Clock → SessionState × Bool → Run (SessionState × Option Reply)
let_pass r expected seed clock (s, true) = value (s, none)
let_pass r expected seed clock (s, false) =
    handle_unauthenticated r expected seed clock s >>= λ sent. value (sent.0, some sent.1)

unfoldable pub authenticate_request :
    ParsedRequest → Bool → Bytes → ℕ → Clock → SessionState → Run (SessionState × Option Reply)
authenticate_request r false expected seed clock s = value (s, none)
authenticate_request r true expected seed clock s =
    validate_session r.raw (refreshes_session r) (clock 0) s >>= let_pass r expected seed clock
