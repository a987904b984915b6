-- ===== src/Web/Serve/LoggedIn.antt =====
-- A browser that logged in, at its next request.
use jzf407_rust.Prelude.{
  ℕ, ◌+◌, ◌^◌, ◌≤◌, ◌<◌, ◌≡◌, ◌≢◌, refl, true, some, List, [], ◌∷◌, ◌++◌, Bytes, All, All-append,
  arith, bytes_eq,
}
use jzf407_rust.Text.{codes}
use jzf407_rust.Text.Utf8.{valid_utf8, ascii-valid_utf8, chars, is_whitespace}
use jzf407_rust.Text.Utf8.Range.{Printable-ascii, Digits-Printable}
use jzf407_rust.Text.Utf8.Trim.{Printable}
use jzf407_rust.Text.Split.{split_once}
use jzf407_rust.Text.Decimal.{Digits-Avoids, to_decimal, to_decimal-Digits}
use jzf407_rust.Eeprom.{Bus, Cell}
use jzf407_rust.Web.{value, Clock, SessionState, logged_in, dashboard}
use jzf407_rust.Web.Request.{split_whitespace, parse_request, refreshes_session}
use jzf407_rust.Web.Request.Cookie.{
  crlf_lines, named, home_with_cookie, home_lines, extract_cookie-home,
}
use jzf407_rust.Web.Session.{cookie_name, validate_session}
use jzf407_rust.Web.Session.Accepts.{refreshed}
use jzf407_rust.Web.Browser.Cookies.{kept_cookie, kept_cookie-redirect}
use jzf407_rust.Web.Page.Answer.{redirect}
use jzf407_rust.Web.Login.{complete_login, authenticate_request, let_pass}
use jzf407_rust.Web.Login.Credentials.{
  new_token, logged, login_cookie_passes, mint_session_token-lt,
}
use jzf407_rust.Web.Serve.{
  Server, answer, serve_connection, serve_request, finish_request, route_authenticated,
}

abbrev Ascii : Bytes → Type 0
Ascii = All (λ b. b < 0x80)

crlf_lines-Ascii : (ls : List Bytes) → All Ascii ls → Ascii (crlf_lines ls)
crlf_lines-Ascii [] h = tt
crlf_lines-Ascii (l ∷ ls) h =
    All-append (λ b. b < 0x80) (l ++ (b'\r' ∷ [])) (b'\n' ∷ crlf_lines ls)
      (All-append (λ b. b < 0x80) l (b'\r' ∷ []) h.0 (omega arith, tt))
      (omega arith, crlf_lines-Ascii ls h.1)

home-valid : (cookie : Bytes) → Printable cookie → valid_utf8 (home_with_cookie cookie) ≡ true
home-valid cookie h = ascii-valid_utf8 (home_with_cookie cookie) (
    crlf_lines-Ascii
      (codes "GET / HTTP/1.1" ∷ codes "Host: jzf407" ∷ (codes "Cookie: " ++ cookie) ∷ [] ∷ [])
      (
        omega arith,
        (
          omega arith,
          (
            All-append (λ b. b < 0x80) (codes "Cookie: ") cookie (omega arith)
                (Printable-ascii cookie h),
            (tt, tt),
          ),
        ),
      ))

parsed_home :
    (cookie : Bytes)
    → Printable cookie
    → parse_request (home_with_cookie cookie)
      ≡ record { raw = home_with_cookie cookie; method = codes "GET"; path = codes "/"; query = [] }
unfolding parse_request split_whitespace chars is_whitespace split_once
parsed_home cookie h = rw (home_lines cookie h) refl

-- A request for `/` that passes gets the dashboard.
home_served :
    (bus : Bus) (server : Server) (clock : Clock) (s s' : SessionState) (cell : Cell bus) (b : ℕ)
    (rest : Bytes)
    → server.auth_required ≡ true
    → valid_utf8 (b ∷ rest) ≡ true
    → parse_request (b ∷ rest)
      ≡ record { raw = b ∷ rest; method = codes "GET"; path = codes "/"; query = [] }
    → validate_session (b ∷ rest) true (clock 0) s ≡ value (s', true)
    → serve_connection bus server (some (b ∷ rest)) clock s cell
      ≡ value (answer bus s' cell dashboard)
unfolding serve_connection serve_request authenticate_request finish_request route_authenticated
    bytes_eq refreshes_session let_pass
home_served bus server clock s s' cell b rest asks valid parsed passes =
    rw (valid, parsed, asks, passes) refl

-- The login's answer takes a browser to the dashboard: the browser keeps the cookie that the redirect
-- sets and sends it with its request for `/`, and for 900 s that request gets the dashboard and
-- extends the session. (The token is not 0, the server asks for a login, and the login is within the
-- first 2^32 seconds.)
pub redirect_opens_dashboard :
    (bus : Bus) (server : Server) (minted stored : ℕ) (s : SessionState) (clock : Clock)
    (cell : Cell bus)
    → server.auth_required ≡ true
    → new_token server.token_seed minted stored s ≢ 0
    → stored < 2 ^ 32
    → clock 0 ≤ stored + 900
    → (complete_login server.token_seed minted stored s ≡ (
      logged server.token_seed minted stored s,
      logged_in (new_token server.token_seed minted stored s),
    ))
      × (serve_connection bus server
            (some (
              home_with_cookie
                (kept_cookie (redirect (new_token server.token_seed minted stored s)))))
            clock
            (logged server.token_seed minted stored s)
            cell
          ≡ value (
              answer bus
                (refreshed true (clock 0) (logged server.token_seed minted stored s))
                cell
                dashboard))
redirect_opens_dashboard bus server minted stored s clock cell asks some_token small soon =
    let t = new_token server.token_seed minted stored s in
    let sent = named cookie_name (to_decimal t) in
    let digits = to_decimal-Digits t in
    let shown = Digits-Printable (to_decimal t) digits in
    let kept : kept_cookie (redirect t) ≡ sent = kept_cookie-redirect t (mint_session_token-lt _) in
    let whole : Printable sent =
      All-append (λ b. (33 ≤ b) × (b < 0x80)) (codes "jzf_session=") (to_decimal t) (omega arith)
        shown in
    let found =
      extract_cookie-home cookie_name (to_decimal t) (omega arith) shown (omega arith)
        (Digits-Avoids b';' (to_decimal t) (omega arith) digits) in
    let passes =
      login_cookie_passes server.token_seed minted stored s (home_with_cookie sent) true (clock 0)
        found some_token small soon in
    (
      passes.0,
      rw kept (
          home_served bus server clock _ _ cell _ _ asks (home-valid sent whole)
            (parsed_home sent whole) passes.1),
    )
