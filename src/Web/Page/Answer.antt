-- ===== src/Web/Page/Answer.antt =====
-- src/web.rs: the bytes of every answer, and the login page as a browser reads it.
use jzf407_rust.Prelude.{
  ℕ, ◌^◌, ◌<◌, ◌≡◌, refl, false, Option, none, some, List, [], ◌∷◌, ◌++◌, Bytes, bytes_eq, arith,
}
use jzf407_rust.Text.{codes, text, texts, encode_code}
use jzf407_rust.Text.Utf8.{concat, IsField}
use jzf407_rust.Text.Utf8.Range.{valid_utf8-AreBytes}
use jzf407_rust.Text.Split.{strip_prefix, after_first}
use jzf407_rust.Text.Decimal.{to_decimal, length-to_decimal}
use jzf407_rust.WebForm.Escape.Entities.{unescape, unescape_from}
use jzf407_rust.NetConfig.{NetworkConfig}
use jzf407_rust.Web.{
  LoginStatus, login_401, expire_cookie_401, LoginMessage, login_error, login_locked, Reply,
  nothing, http_400, http_404, http_500, http_303_home, http_303_logout, http_401_login, logged_in,
  login_form, dashboard, event_stream, state_json, rebooting_page, saved_page,
}
use jzf407_rust.Web.Form.{parse_login_form, login_loop}
use jzf407_rust.Web.Form.Submitted.{PlainFields, split_body, key_value_field, decode_sent}
use jzf407_rust.Web.Browser.{
  Field, strip_newlines, until, tag_at, opened, field_of, attribute, form_fields, form_encode,
  encode_byte, encode_fields, form_body,
}
use jzf407_rust.Web.Page.{View, write_pieces}
use jzf407_rust.Web.Page.Responses.{
  http_ok_text, http_303_home_text, http_303_logout_text, http_400_text, http_404_text,
  http_500_text, http_401_login_text, http_401_expire_cookie_text,
}
use jzf407_rust.Web.Page.LoginTexts.{login_head, login_error_text, login_locked_text, login_tail}
use jzf407_rust.Web.Page.Dashboard.{send_page}
use jzf407_rust.Web.Page.State.{send_state, pieces_fit}

abbrev status_text : LoginStatus → Bytes
status_text login_401 = http_401_login_text
status_text expire_cookie_401 = http_401_expire_cookie_text

abbrev message_texts : Option LoginMessage → List Bytes
message_texts none = []
message_texts (some login_error) = login_error_text ∷ []
message_texts (some login_locked) = login_locked_text ∷ []

unfoldable pub send_login_form : LoginStatus → Option LoginMessage → List Bytes
send_login_form status message =
    status_text status ∷ login_head ∷ message_texts message ++ login_tail ∷ []

abbrev pub redirect_pieces : ℕ → List Bytes
redirect_pieces new_token =
    codes "HTTP/1.1 303 See Other\r\nSet-Cookie: jzf_session="
    ∷ to_decimal new_token
    ∷ codes
        "; Path=/; Max-Age=1800; HttpOnly; SameSite=Strict\r\nLocation: /\r\nConnection: close\r\n\r\n"
    ∷ []

-- The answer of `complete_login`.
unfoldable pub redirect : ℕ → Bytes
redirect new_token = write_pieces 256 [] (redirect_pieces new_token)

abbrev pub rebooting_texts : List Bytes
rebooting_texts =
    http_ok_text
    ∷ codes
        "<html><head><meta http-equiv=refresh content='4;url=/'></head><body><p>Rebooting... <a href=/>back in 4s</a></p></body></html>"
    ∷ []

abbrev pub saved_texts : List Bytes
saved_texts =
    http_ok_text
    ∷ codes
        "<html><head><meta http-equiv=refresh content='4;url=/'></head><body><p>Saved. Rebooting... <a href=/>back in 4s</a></p></body></html>"
    ∷ []

-- What each answer writes, call by call; the event stream is what `serve_events` writes.
unfoldable pub written : NetworkConfig → View → ℕ → List Bytes → Reply → List Bytes
written cfg v up events nothing = []
written cfg v up events http_400 = http_400_text ∷ []
written cfg v up events http_404 = http_404_text ∷ []
written cfg v up events http_500 = http_500_text ∷ []
written cfg v up events http_303_home = http_303_home_text ∷ []
written cfg v up events http_303_logout = http_303_logout_text ∷ []
written cfg v up events http_401_login = http_401_login_text ∷ []
written cfg v up events (logged_in new_token) = redirect new_token ∷ []
written cfg v up events (login_form status message) = send_login_form status message
written cfg v up events dashboard = send_page cfg v
written cfg v up events event_stream = events
written cfg v up events state_json = send_state cfg v up
written cfg v up events rebooting_page = rebooting_texts
written cfg v up events saved_page = saved_texts

-- The redirect is never cut off by its buffer of 256 bytes.
pub redirect_complete :
    (new_token : ℕ) → new_token < 2 ^ 64 → redirect new_token ≡ concat (redirect_pieces new_token)
unfolding redirect
redirect_complete t h =
    pieces_fit 256 [] (redirect_pieces t) (omega (arith, length-to_decimal 19 t (omega arith)))

-- The fields of the login page, whatever its status and its message.
pub login_page_fields :
    (status : LoginStatus) (message : Option LoginMessage)
    → form_fields (codes "/login") false (concat (send_login_form status message))
      ≡ (codes "user", []) ∷ (codes "pass", []) ∷ []
unfolding send_login_form login_head login_tail login_error_text login_locked_text
    http_401_login_text http_401_expire_cookie_text concat form_fields tag_at opened field_of until
    strip_newlines attribute after_first strip_prefix bytes_eq unescape unescape_from text texts
    encode_code
login_page_fields login_401 none = refl
login_page_fields login_401 (some login_error) = refl
login_page_fields login_401 (some login_locked) = refl
login_page_fields expire_cookie_401 none = refl
login_page_fields expire_cookie_401 (some login_error) = refl
login_page_fields expire_cookie_401 (some login_locked) = refl

-- The form with a user name and a password typed into the fields.
abbrev pub filled_in : List Field → Bytes → Bytes → List Field
filled_in ((first, _) ∷ (second, _) ∷ []) user pass = (first, user) ∷ (second, pass) ∷ []
filled_in _ user pass = []

-- What is typed into the login page arrives: `parse_login_form` reads the two texts from the body
-- that a browser sends. (Each text has at most 64 bytes, is valid UTF-8 and has no NUL.)
pub typed_login_arrives :
    (status : LoginStatus) (message : Option LoginMessage) (user pass : Bytes)
    → IsField 64 user
    → IsField 64 pass
    → parse_login_form (
        form_body (
          filled_in
            (form_fields (codes "/login") false (concat (send_login_form status message)))
            user
            pass))
      ≡ (some user, some pass)
unfolding parse_login_form login_loop encode_fields form_encode encode_byte bytes_eq
typed_login_arrives status message user pass u p =
    let plain : PlainFields ((codes "user", user) ∷ (codes "pass", pass) ∷ []) = (
      (omega arith, valid_utf8-AreBytes user u.utf8),
      ((omega arith, valid_utf8-AreBytes pass p.utf8), tt),
    ) in
    rw (
      login_page_fields status message,
      split_body (codes "user", user) ((codes "pass", pass) ∷ []) plain,
      key_value_field (codes "user") user (omega arith),
      key_value_field (codes "pass") pass (omega arith),
      decode_sent user u,
      decode_sent pass p,
    )
