-- ===== src/Web/Login/Credentials.antt =====
-- A login passes with the stored credentials, and its cookie then passes as the session.
use jzf407_rust.Prelude.{
  ℕ, ◌+◌, ◌%◌, ◌^◌, ◌≤◌, ◌<◌, ◌≡◌, ◌≢◌, ◌↔◌, refl, sym, ap, ◌∙◌, Bool, true, some, Bytes, All,
  bytes_eq_iff, arith,
}
use jzf407_rust.Text.Utf8.{ascii-valid_utf8}
use jzf407_rust.Text.Utf8.Range.{Printable-ascii, Digits-Printable}
use jzf407_rust.Text.Decimal.{Digits, to_decimal, to_decimal-Digits, parse_uint-to_decimal}
use jzf407_rust.Auth.{basic_token}
use jzf407_rust.Auth.Injective.{IsShort, IsPlain, basic_token-injective}
use jzf407_rust.Web.{value, SessionState, logged_in}
use jzf407_rust.Web.Request.{ParsedRequest, body, extract_cookie}
use jzf407_rust.Web.Session.{
  cookie_name, u64_max, mint_session_token, token, store_token, parsed_cookie, validate_session,
}
use jzf407_rust.Web.Session.Accepts.{refreshed, token-store_token, validate_session_iff}
use jzf407_rust.Web.Form.{parse_login_form}
use jzf407_rust.Web.Login.{login_credentials_match, complete_login}

-- For user names with no colon and credentials of at most 72 bytes with the colon, the submitted
-- credentials match exactly when they are the stored ones.
pub login_credentials_match_iff :
    (r : ParsedRequest) (b u p user pass : Bytes)
    → body r ≡ some b
    → parse_login_form b ≡ (some u, some p)
    → IsShort u p
    → IsShort user pass
    → IsPlain u
    → IsPlain user
    → (login_credentials_match r (basic_token user pass) ≡ true) ↔ ((u ≡ user) × (p ≡ pass))
unfolding login_credentials_match
login_credentials_match_iff r b u p user pass has parsed short short' plain plain' = (
  λ e.
      basic_token-injective u p user pass short short' plain plain'
        ((bytes_eq_iff _ _).0 (rw (has, parsed) at e)),
  λ h. rw (has, parsed, h.0, h.1) ((bytes_eq_iff _ _).1 refl),
)

Digits-ascii : (s : Bytes) → Digits s → All (λ b. b < 0x80) s
Digits-ascii s h = Printable-ascii s (Digits-Printable s h)

-- The token as the cookie spells it is read back.
parsed_cookie-to_decimal : (t : ℕ) → t ≤ u64_max → parsed_cookie (to_decimal t) ≡ some t
parsed_cookie-to_decimal t h =
    rw (ascii-valid_utf8 (to_decimal t) (Digits-ascii (to_decimal t) (to_decimal-Digits t)))
      (parse_uint-to_decimal u64_max t h)

pub mint_session_token-lt : (seed : ℕ) → mint_session_token seed < 2 ^ 64
unfolding mint_session_token
mint_session_token-lt seed = omega arith

module _ (seed minted stored : ℕ) (s : SessionState) where
  abbrev pub new_token : ℕ
  new_token = mint_session_token ((seed + minted) % 2 ^ 64)

  abbrev pub logged : SessionState
  logged = record (store_token new_token s) { created = stored % 2 ^ 32; fail_count = 0 }

  -- The cookie that a login hands out, sent back with the decimal digits of its token, passes for
  -- 900 s, if the token is not 0. (The login is within the first 2^32 seconds.)
  pub login_cookie_passes :
      (req : Bytes) (refresh : Bool) (now : ℕ)
      → extract_cookie req cookie_name ≡ value (some (to_decimal new_token))
      → new_token ≢ 0
      → stored < 2 ^ 32
      → now ≤ stored + 900
      → (complete_login seed minted stored s ≡ (logged, logged_in new_token))
        × (validate_session req refresh now logged ≡ value (refreshed refresh now logged, true))
  unfolding complete_login token
  login_cookie_passes req refresh now sent some_token small soon =
      let bound = mint_session_token-lt ((seed + minted) % 2 ^ 64) in
      let same : token logged ≡ new_token = token-store_token new_token s bound in
      (
        refl,
        (validate_session_iff req refresh now logged (refreshed refresh now logged)).1 (
          record {
            some_token = λ e. some_token (sym same ∙ e);
            cookie = to_decimal new_token;
            sent = sent;
            spells = parsed_cookie-to_decimal new_token (omega arith) ∙ ap some (sym same);
            fresh = omega arith;
          },
          refl,
        ),
      )
