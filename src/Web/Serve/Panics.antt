-- ===== src/Web/Serve/Panics.antt =====
-- Requests that stop the board: `extract_cookie` slices a line at byte 7 without asking whether a
-- character ends there.
use jzf407_rust.Prelude.{
  ℕ, ◌≤◌, ◌≡◌, refl, true, false, ◌&&◌, some, List, ◌∷◌, Bytes, bytes_eq, length, ltb, arith,
  Bool-cases, inl, inr, ◌==◌,
}
use jzf407_rust.Text.{codes}
use jzf407_rust.Text.Utf8.{valid_utf8}
use jzf407_rust.Eeprom.{Bus, Cell}
use jzf407_rust.Web.{panic, SessionState, Clock}
use jzf407_rust.Web.Request.{parse_request, lines, is_char_boundary, find_cookie, extract_cookie}
use jzf407_rust.Web.Session.{token, validate_session}
use jzf407_rust.Web.Login.{show_login_form, handle_unauthenticated, let_pass, authenticate_request}
use jzf407_rust.Web.Serve.{Server, serve_request, serve_connection}

-- The first line is longer than six bytes, and byte 7 lies inside a character.
pub record SplitsCharacter (req : Bytes) : Type 0 where
  pub line : Bytes
  pub others : List Bytes
  pub starts : lines req ≡ line ∷ others
  pub long : 7 ≤ length line
  pub inside : is_char_boundary 7 line ≡ false

cookie_panics : (req name : Bytes) → SplitsCharacter req → extract_cookie req name ≡ panic
unfolding extract_cookie find_cookie
cookie_panics req name c =
    let enough : ltb (length c.line) 7 ≡ false = ground (arith, c.long) in
    rw (c.starts, enough, c.inside) refl

-- A text that is not the request of a login and does not ask for the event stream.
pub record SeesLoginForm (req : Bytes) : Type 0 where
  pub no_login :
      (bytes_eq (parse_request req).method (codes "POST")
        && bytes_eq (parse_request req).path (codes "/login"))
      ≡ false
  pub no_events : bytes_eq (parse_request req).path (codes "/events") ≡ false

module _ (bus : Bus) (server : Server) (clock : Clock) (s : SessionState) (cell : Cell bus) where
  form_panics :
      (req : Bytes)
      → SplitsCharacter req
      → SeesLoginForm req
      → handle_unauthenticated (parse_request req) server.expected_token server.token_seed clock s
        ≡ panic
  unfolding handle_unauthenticated show_login_form parse_request
  form_panics req c l = rw (l.no_login, l.no_events, cookie_panics req (codes "jzf_session") c) refl

  request_panics :
      (req : Bytes)
      → SplitsCharacter req
      → SeesLoginForm req
      → server.auth_required ≡ true
      → serve_request bus server req clock s cell ≡ panic
  unfolding serve_request authenticate_request validate_session parse_request let_pass
  request_panics req c l on = elim (Bool-cases (token s == 0)) [
    | inl h ↦ rw (on, authenticate_request, h, form_panics req c l) refl
    | inr h ↦ rw (on, authenticate_request, h, cookie_panics req (codes "jzf_session") c) refl
  ]

  -- Where a login is set up, a request in UTF-8 whose first line has byte 7 inside a character, and
  -- which is neither a login nor for `/events`, panics, whoever sends it.
  pub serve_connection_panics :
      (b : ℕ) (rest : Bytes)
      → valid_utf8 (b ∷ rest) ≡ true
      → SplitsCharacter (b ∷ rest)
      → SeesLoginForm (b ∷ rest)
      → server.auth_required ≡ true
      → serve_connection bus server (some (b ∷ rest)) clock s cell ≡ panic
  unfolding serve_connection
  serve_connection_panics b rest v c l on = rw v (request_panics (b ∷ rest) c l on)
