-- ===== src/Web/Serve/Tests.antt =====
-- What is saved and what is shown, at concrete requests on a simulated chip.
use jzf407_rust.Prelude.{◌≡◌, refl, true, false, some, [], ◌∷◌, Bytes, bytes_eq, arith, contains}
use jzf407_rust.Text.{codes}
use jzf407_rust.Text.Utf8.{valid_utf8, trim}
use jzf407_rust.Text.Utf8.Range.{Printable-IsField}
use jzf407_rust.Text.Split.{split, key_value, after_first, strip_prefix}
use jzf407_rust.Text.Decimal.{parse_uint, to_decimal}
use jzf407_rust.WebForm.{form_url_decode, secret_from_form}
use jzf407_rust.Eeprom.{bytes_from, write_bytes}
use jzf407_rust.Eeprom.Simulated.{simulated, blank, write_bytes_willing}
use jzf407_rust.NetConfig.{NetworkConfig, cred_max, default, to_bytes, parse_port, parse_ipv4}
use jzf407_rust.NetConfig.Valid.{IsValid, default-IsValid}
use jzf407_rust.ConfigStore.{load_config, save_config}
use jzf407_rust.FaultMarker.{power_on, remote_reboot}
use jzf407_rust.Web.{Run, initial, saved_page}
use jzf407_rust.Web.Request.{ParsedRequest, body}
use jzf407_rust.Web.Session.Accepts.{Carries}
use jzf407_rust.Web.Form.{parse_form, form_loop, form_step, set_field}
use jzf407_rust.Web.Form.RoundTrip.{typed, read_back}
use jzf407_rust.Web.Browser.{form_body, encode_fields, encode_field, form_encode, encode_byte}
use jzf407_rust.Web.Page.{View}
use jzf407_rust.Web.Serve.{Served, start_server, serve_connection, save_and_reboot}
use jzf407_rust.Web.Serve.NextBoot.{Readable}
use jzf407_rust.Web.Serve.Typed.{typed_configuration_boots}
use jzf407_rust.Web.Serve.Protected.{login_stays_required}
use jzf407_rust.Web.Serve.Public.{seen, nothing_leaks}
use jzf407_rust.Web.Session.{token}
use jzf407_rust.Web.Tests.{new_config, save_request, at, cell, asks}

abbrev view : View
view = record {
  relay_on = false;
  led1_on = true;
  led2_on = false;
  link_up = true;
  mqtt_up = true;
  reset = power_on;
}

abbrev with_login : NetworkConfig → NetworkConfig
with_login cfg = record cfg { web_user = codes "admin"; web_pass = codes "pass" }

no_cookie : ¬ Carries save_request 20 initial
unfolding token
no_cookie c = c.some_token refl

abbrev asked : NetworkConfig → Run (Served simulated)
asked cfg =
    serve_connection simulated (start_server (with_login cfg) 3) (some save_request) (at 20) initial
      cell

nothing_leaks_example :
    seen (with_login default) view 10 [] (asked default)
    ≡ seen
        (with_login new_config)
        (record view { relay_on = true; reset = remote_reboot })
        20
        []
        (asked new_config)
nothing_leaks_example =
    nothing_leaks (with_login default) (with_login new_config) view
      (record view { relay_on = true; reset = remote_reboot }) 10 20 [] [] simulated (at 20) initial
      cell cell save_request 3 asks refl refl no_cookie

abbrev posted : Bytes → ParsedRequest
posted form = record {
  raw = 13 ∷ 10 ∷ 13 ∷ 10 ∷ form;
  method = codes "POST";
  path = codes "/save";
  query = [];
}

-- The body of a posted form is the form.
has_body : (form : Bytes) → body (posted form) ≡ some form
unfolding body after_first strip_prefix
has_body form = refl

-- The default configuration with another port and user, typed in.
abbrev wanted : NetworkConfig
wanted = record default { broker_port = 1884; mqtt_user = codes "x&y" }

wanted-IsValid : IsValid wanted
wanted-IsValid =
    let v = default-IsValid in
    record {
      ip = v.ip;
      gateway = v.gateway;
      broker_ip = v.broker_ip;
      prefix_pos = v.prefix_pos;
      prefix_le = v.prefix_le;
      port_pos = omega arith;
      port_lt = omega arith;
      client_id = v.client_id;
      mqtt_user = Printable-IsField cred_max (codes "x&y") (omega arith) (omega arith);
      mqtt_pass = v.mqtt_pass;
      web_user = v.web_user;
      web_pass = v.web_pass;
    }

readable :
    (cfg : NetworkConfig) (v : IsValid cfg) (next : NetworkConfig)
    → Readable simulated (blank []) cfg v initial next
readable cfg v next =
    let written = (write_bytes simulated (blank []) 16 (to_bytes next)).0 in
    (bytes_from written.memory 16 175, rw (write_bytes_willing 16 (to_bytes next)) refl)

abbrev saving : Served simulated
saving = save_and_reboot simulated (posted (form_body (typed wanted))) default initial cell

saves : saving.reply ≡ saved_page
unfolding save_and_reboot body after_first strip_prefix parse_form form_loop split form_step
    form_url_decode trim key_value contains valid_utf8 set_field bytes_eq parse_port parse_ipv4
    parse_uint save_config write_bytes to_bytes default form_body encode_fields encode_field
    form_encode encode_byte to_decimal secret_from_form
saves = refl

typed_configuration_boots_example :
    (load_config simulated saving.eeprom).1 ≡ read_back default wanted
typed_configuration_boots_example =
    typed_configuration_boots simulated (blank []) default default-IsValid initial
      (posted (form_body (typed wanted))) wanted wanted-IsValid (readable default default-IsValid)
      (has_body (form_body (typed wanted))) saves

-- A board with a web password, and a form that leaves both fields of the login blank.
abbrev protected_config : NetworkConfig
protected_config = record default { web_user = codes "admin"; web_pass = codes "pass" }

protected-IsValid : IsValid protected_config
protected-IsValid =
    let v = default-IsValid in
    record {
      ip = v.ip;
      gateway = v.gateway;
      broker_ip = v.broker_ip;
      prefix_pos = v.prefix_pos;
      prefix_le = v.prefix_le;
      port_pos = v.port_pos;
      port_lt = v.port_lt;
      client_id = v.client_id;
      mqtt_user = v.mqtt_user;
      mqtt_pass = v.mqtt_pass;
      web_user = Printable-IsField cred_max (codes "admin") (omega arith) (omega arith);
      web_pass = Printable-IsField cred_max (codes "pass") (omega arith) (omega arith);
    }

abbrev blanked : Served simulated
blanked = save_and_reboot simulated (posted (codes "wuser=&wpass=")) protected_config initial cell

blank_saves : blanked.reply ≡ saved_page
unfolding save_and_reboot body after_first strip_prefix parse_form form_loop split form_step
    form_url_decode trim key_value contains valid_utf8 set_field bytes_eq save_config write_bytes
    to_bytes default secret_from_form
blank_saves = refl

login_stays_required_example :
    (start_server (load_config simulated blanked.eeprom).1 50).auth_required ≡ true
login_stays_required_example =
    login_stays_required simulated (blank []) protected_config protected-IsValid initial
      (posted (codes "wuser=&wpass=")) 50 tt (readable protected_config protected-IsValid)
      blank_saves
