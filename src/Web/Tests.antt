-- ===== src/Web/Tests.antt =====
-- The web server at concrete requests, on a simulated chip.
use jzf407_rust.Prelude.{
  ℕ, ◌≡◌, ◌↔◌, ◌⊎◌, refl, true, false, none, some, [], ◌∷◌, ◌++◌, Bytes, bytes_eq, arith, contains,
}
use jzf407_rust.Text.{codes}
use jzf407_rust.Text.Utf8.{chars, is_whitespace, valid_utf8, is_continuation, trim, trim_start}
use jzf407_rust.Text.Split.{split, split_once, key_value, strip_prefix, after_first}
use jzf407_rust.Text.Decimal.{parse_uint}
use jzf407_rust.WebForm.{form_url_decode}
use jzf407_rust.Eeprom.{Cell, bytes_from, write_bytes}
use jzf407_rust.Eeprom.Simulated.{simulated, blank, write_bytes_willing}
use jzf407_rust.NetConfig.{NetworkConfig, default, to_bytes, parse_port}
use jzf407_rust.NetConfig.Valid.{IsValid, default-IsValid}
use jzf407_rust.ConfigStore.{load_config, save_config}
use jzf407_rust.Web.{panic, value, SessionState, initial, Clock, login_401, login_form, saved_page}
use jzf407_rust.Web.Request.{
  parse_request, lines, split_whitespace, body, extract_cookie, find_cookie, is_char_boundary,
  eq_ignore_ascii_case, cookie_in,
}
use jzf407_rust.Web.Session.{token, store_token, check_token, validate_session}
use jzf407_rust.Web.Session.Accepts.{Carries, refreshed, validate_session_iff}
use jzf407_rust.Web.Form.{parse_form, form_loop, form_step, set_field}
use jzf407_rust.Web.Form.Fields.{parse_form-IsValid}
use jzf407_rust.Web.Login.{authenticate_request, let_pass, handle_unauthenticated, show_login_form}
use jzf407_rust.Web.Serve.{
  Server, Served, start_server, save_and_reboot, finish_request, serve_request, serve_connection,
}
use jzf407_rust.Web.Serve.NextBoot.{Readable, load_config-save_and_reboot}
use jzf407_rust.Web.Serve.Gate.{IsPublic, session_needed}
use jzf407_rust.Web.Serve.Panics.{SplitsCharacter, SeesLoginForm, serve_connection_panics}

abbrev live : SessionState
live = record (store_token 42 initial) { created = 100 }

abbrev pub crlf : Bytes
crlf = 13 ∷ 10 ∷ []

abbrev home_request : Bytes
home_request = codes "GET / HTTP/1.1" ++ crlf ++ codes "Cookie: jzf_session=42" ++ crlf ++ crlf

carried : validate_session home_request true 200 live ≡ value (record live { created = 200 }, true)
unfolding validate_session token extract_cookie find_cookie lines split is_char_boundary
    is_continuation eq_ignore_ascii_case bytes_eq cookie_in trim trim_start strip_prefix check_token
    parse_uint valid_utf8
carried = refl

validate_session_iff_example :
    (validate_session home_request true 200 live ≡ value (record live { created = 200 }, true))
    ↔ (Carries home_request 200 live × (record live { created = 200 } ≡ refreshed true 200 live))
validate_session_iff_example =
    validate_session_iff home_request true 200 live (record live { created = 200 })

abbrev pub new_config : NetworkConfig
new_config = record default { broker_port = 1884 }

new_port : parse_form (codes "port=1884") default ≡ some new_config
unfolding parse_form form_loop split form_step form_url_decode trim key_value contains valid_utf8
    set_field bytes_eq parse_port parse_uint
new_port = refl

parse_form-IsValid_example : IsValid new_config
parse_form-IsValid_example =
    parse_form-IsValid default default-IsValid (codes "port=1884") new_config new_port

abbrev pub save_request : Bytes
save_request = codes "POST /save HTTP/1.1" ++ crlf ++ crlf ++ codes "port=1884"

readable :
    (next : NetworkConfig) → Readable simulated (blank []) default default-IsValid initial next
readable next =
    let written = (write_bytes simulated (blank []) 16 (to_bytes next)).0 in
    (bytes_from written.memory 16 175, rw (write_bytes_willing 16 (to_bytes next)) refl)

abbrev saving : Served simulated
saving =
    save_and_reboot simulated (parse_request save_request) default initial
      (record { held = false; chip = some (blank []) })

saves : saving.reply ≡ saved_page
unfolding save_and_reboot body parse_request after_first parse_form form_loop split form_step
    form_url_decode trim key_value contains valid_utf8 set_field bytes_eq parse_port parse_uint
    save_config write_bytes to_bytes default
saves = refl

load_config-save_and_reboot_example :
    (b : Bytes) × (next : NetworkConfig) × (body (parse_request save_request) ≡ some b)
    × (parse_form b default ≡ some next)
    × IsValid next
    × ((load_config simulated saving.eeprom).1 ≡ next)
load_config-save_and_reboot_example =
    load_config-save_and_reboot simulated (blank []) default default-IsValid initial
      (parse_request save_request) readable saves

abbrev pub server : Server
server = start_server (record default { web_user = codes "admin"; web_pass = codes "pass" }) 3

abbrev pub at : ℕ → Clock
at now k = now

abbrev bad_request_line : Bytes
bad_request_line = codes "GET /a" ++ (0xc3 ∷ 0xa9 ∷ []) ++ codes " HTTP/1.1"

splits : SplitsCharacter bad_request_line
unfolding lines split is_char_boundary is_continuation
splits = record {
  line = bad_request_line;
  others = [];
  starts = refl;
  long = omega arith;
  inside = refl;
}

sees_form : SeesLoginForm bad_request_line
unfolding parse_request lines split split_whitespace chars is_whitespace split_once bytes_eq
sees_form = record { no_login = refl; no_events = refl }

is_utf8 : valid_utf8 bad_request_line ≡ true
unfolding valid_utf8
is_utf8 = refl

abbrev pub cell : Cell simulated
cell = record { held = false; chip = some (blank []) }

pub asks : server.auth_required ≡ true
unfolding start_server
asks = refl

serve_connection_panics_example :
    serve_connection simulated server (some bad_request_line) (at 20) initial cell ≡ panic
serve_connection_panics_example =
    serve_connection_panics simulated server (at 20) initial cell b'G'
      (codes "ET /a" ++ (0xc3 ∷ 0xa9 ∷ []) ++ codes " HTTP/1.1") is_utf8 splits sees_form asks

-- A form that is sent without a session: the login form is shown, nothing is saved.
abbrev pub refused : Served simulated
refused = record {
  session = initial;
  eeprom = cell;
  reply = login_form login_401 none;
  restarts = false;
}

pub refuses :
    serve_connection simulated server (some save_request) (at 20) initial cell ≡ value refused
unfolding serve_connection serve_request start_server authenticate_request valid_utf8
    validate_session token let_pass handle_unauthenticated bytes_eq parse_request split_whitespace
    chars lines split is_whitespace split_once show_login_form extract_cookie find_cookie
    is_char_boundary is_continuation eq_ignore_ascii_case finish_request
refuses = refl

session_needed_example :
    Carries save_request 20 initial
    ⊎ ((serve_connection simulated server (some save_request) (at 20) initial cell ≡ panic)
        ⊎ ((out : Served simulated) × (serve_connection simulated server
                (some save_request)
                (at 20)
                initial
                cell
              ≡ value out)
            × (out.eeprom ≡ cell)
            × (out.restarts ≡ false)
            × IsPublic out.reply))
session_needed_example = session_needed simulated server (at 20) initial cell save_request asks
