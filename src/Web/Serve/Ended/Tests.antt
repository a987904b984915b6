-- ===== src/Web/Serve/Ended/Tests.antt =====
-- A cookie that is sent after the logout.
use jzf407_rust.Prelude.{◌≡◌, ◌≢◌, refl, false, none, some, ◌++◌, Bytes, bytes_eq, arith}
use jzf407_rust.Text.{codes}
use jzf407_rust.Text.Utf8.{valid_utf8, chars, is_whitespace, is_continuation, trim, trim_start}
use jzf407_rust.Text.Split.{split, split_once, strip_prefix}
use jzf407_rust.Text.Decimal.{parse_uint}
use jzf407_rust.Eeprom.Simulated.{simulated}
use jzf407_rust.Web.{value, SessionState, initial, logged_in, login_form, expire_cookie_401}
use jzf407_rust.Web.Request.{
  parse_request, split_whitespace, lines, extract_cookie, find_cookie, is_char_boundary,
  eq_ignore_ascii_case, cookie_in,
}
use jzf407_rust.Web.Session.{token, store_token, cookie_name, parsed_cookie, validate_session}
use jzf407_rust.Web.Login.{show_login_form, handle_unauthenticated, authenticate_request, let_pass}
use jzf407_rust.Web.Serve.{
  Served, log_out, start_server, finish_request, serve_request, serve_connection,
}
use jzf407_rust.Web.Serve.Gate.{IsPublic}
use jzf407_rust.Web.Serve.Ended.{Onward, here, then_served, old_cookie_opens_nothing}
use jzf407_rust.Web.Tests.{server, at, cell, asks, save_request, refused, refuses, crlf}

-- The session 42 after its user logged out.
abbrev out_of : SessionState
out_of = log_out (record (store_token 42 initial) { created = 10 })

abbrev reboot_request : Bytes
reboot_request =
    codes "POST /reboot HTTP/1.1" ++ crlf ++ codes "Cookie: jzf_session=42" ++ crlf ++ crlf

abbrev bounced : Served simulated
bounced = record {
  session = initial;
  eeprom = cell;
  reply = login_form expire_cookie_401 none;
  restarts = false;
}

bounces :
    serve_connection simulated server (some reboot_request) (at 30) initial cell ≡ value bounced
unfolding serve_connection serve_request start_server authenticate_request valid_utf8
    validate_session token let_pass handle_unauthenticated bytes_eq parse_request split_whitespace
    chars lines split is_whitespace split_once show_login_form extract_cookie find_cookie
    is_char_boundary is_continuation eq_ignore_ascii_case finish_request cookie_in trim trim_start
    strip_prefix
bounces = refl

sends : extract_cookie reboot_request cookie_name ≡ value (some (codes "42"))
unfolding bytes_eq lines split extract_cookie find_cookie is_char_boundary is_continuation
    eq_ignore_ascii_case cookie_in trim trim_start strip_prefix
sends = refl

spells : parsed_cookie (codes "42") ≡ some 42
unfolding parse_uint valid_utf8
spells = refl

gone : token out_of ≢ 42
unfolding token log_out
gone = omega arith

is_form : refused.reply ≢ logged_in 42
is_form = cc

onward : Onward simulated server 42 out_of initial
unfolding log_out
onward = then_served (some save_request) (at 20) cell refused (here out_of) refuses is_form

old_cookie_opens_nothing_example :
    (bounced.eeprom ≡ cell) × (bounced.restarts ≡ false) × IsPublic bounced.reply
old_cookie_opens_nothing_example =
    old_cookie_opens_nothing simulated server 42 out_of initial (at 30) cell reboot_request
      (codes "42") bounced asks (omega arith) gone onward sends spells bounces
