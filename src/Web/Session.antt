-- ===== src/Web/Session.antt =====
-- src/web.rs: the one session, its token in two halves, and its idle timeout.
pub mod Accepts
use jzf407_rust.Prelude.{
  ℕ, ◌+◌, ◌-◌, ◌*◌, ◌/◌, ◌%◌, ◌^◌, bit_or, Bool, true, false, Option, none, some, Bytes, ltb, ◌==◌,
  if◌then◌else◌,
}
use jzf407_rust.Text.{codes}
use jzf407_rust.Text.Utf8.{from_utf8}
use jzf407_rust.Text.Decimal.{parse_uint}
use jzf407_rust.Web.{Run, value, ◌>>=◌, SessionState, session_ttl_secs}
use jzf407_rust.Web.Request.{extract_cookie}

abbrev pub cookie_name : Bytes
cookie_name = codes "jzf_session"

abbrev pub u64_max : ℕ
u64_max = 18446744073709551615

-- `wrapping_mul` and `wrapping_add` on `u64`
unfoldable pub mint_session_token : ℕ → ℕ
mint_session_token seed = (seed * 6364136223846793005 % 2 ^ 64 + 1442695040888963407) % 2 ^ 64

-- `((token_hi as u64) << 32) | (token_lo as u64)`
unfoldable pub token : SessionState → ℕ
token s = bit_or (s.token_hi * 2 ^ 32 % 2 ^ 64) s.token_lo

-- The two stores of a new token, `(t >> 32) as u32` and `t as u32`.
abbrev pub store_token : ℕ → SessionState → SessionState
store_token t s = record s { token_hi = t / 2 ^ 32 % 2 ^ 32; token_lo = t % 2 ^ 32 }

abbrev parse_u64 : Option Bytes → Option ℕ
parse_u64 none = none
parse_u64 (some s) = parse_uint u64_max s

-- `from_utf8(cookie_token).ok().and_then(|s| s.parse().ok())`
abbrev pub parsed_cookie : Bytes → Option ℕ
parsed_cookie cookie = parse_u64 (from_utf8 cookie)

-- The end of `validate_session`, for the token of the cookie, if it is a number.
unfoldable pub check_token : Option ℕ → Bool → ℕ → SessionState → SessionState × Bool
check_token none refresh now s = (s, false)
check_token (some parsed) refresh now s =
    if parsed == token s
    then (if ltb session_ttl_secs (now - s.created)
        then (record s { token_hi = 0; token_lo = 0 }, false)
        else (if refresh then record s { created = now % 2 ^ 32 } else s, true))
    else (s, false)

abbrev pub check_cookie : Option Bytes → Bool → ℕ → SessionState → SessionState × Bool
check_cookie none refresh now s = (s, false)
check_cookie (some cookie) refresh now s = check_token (parsed_cookie cookie) refresh now s

unfoldable pub validate_session : Bytes → Bool → ℕ → SessionState → Run (SessionState × Bool)
validate_session req refresh now s =
    if token s == 0
    then value (s, false)
    else (extract_cookie req cookie_name >>= λ c. value (check_cookie c refresh now s))
