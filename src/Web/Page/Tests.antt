-- ===== src/Web/Page/Tests.antt =====
-- The pages at the default configuration.
use jzf407_rust.Prelude.{◌≡◌, refl, true, false, none, some, [], ◌∷◌, Bytes, arith}
use jzf407_rust.Text.{codes}
use jzf407_rust.Text.Utf8.{concat}
use jzf407_rust.NetConfig.{default}
use jzf407_rust.NetConfig.Valid.{default-IsValid}
use jzf407_rust.FaultMarker.{power_on}
use jzf407_rust.Sse.{Snapshot}
use jzf407_rust.Web.{login_401}
use jzf407_rust.Web.Request.{ParsedRequest}
use jzf407_rust.Web.Form.{parse_form}
use jzf407_rust.Web.Form.RoundTrip.{typed}
use jzf407_rust.Web.Browser.{form_fields, form_body}
use jzf407_rust.Web.Page.{View}
use jzf407_rust.Web.Page.Responses.{http_ok_json_text}
use jzf407_rust.Web.Page.Dashboard.{send_page}
use jzf407_rust.Web.Page.Shown.{
  showable, page_shows_configuration, unchanged_form_keeps_configuration, passwords_not_rendered,
}
use jzf407_rust.Web.Page.State.{state_pieces, event_pieces, send_state, write_event, json_complete}
use jzf407_rust.Web.Page.Answer.{filled_in, send_login_form}

abbrev view : View
view = record {
  relay_on = false;
  led1_on = true;
  led2_on = false;
  link_up = true;
  mqtt_up = true;
  reset = power_on;
}

page_shows_configuration_example :
    form_fields (codes "/save") false (concat (send_page default view)) ≡ typed (showable default)
page_shows_configuration_example = page_shows_configuration default view default-IsValid

unchanged_form_keeps_configuration_example :
    parse_form
      (form_body (form_fields (codes "/save") false (concat (send_page default view))))
      default
    ≡ some default
unfolding default
unchanged_form_keeps_configuration_example =
    unchanged_form_keeps_configuration default view default-IsValid
      (record { client_id = omega arith; mqtt_user = tt; web_user = tt })

passwords_not_rendered_example :
    send_page (record default { mqtt_pass = codes "a"; web_pass = codes "secret" }) view
    ≡ send_page (record default { mqtt_pass = codes "b"; web_pass = codes "other" }) view
passwords_not_rendered_example =
    passwords_not_rendered default view (codes "a") (codes "b") (codes "secret") (codes "other")
      refl refl

abbrev snapshot : Snapshot
snapshot = record { relay = false; led1_on = true; led2_on = false; link = true; mqtt = true }

json_complete_example :
    (send_state default view 86400
      ≡ http_ok_json_text ∷ concat (state_pieces default view 86400) ∷ [])
    × (write_event 128 snapshot 86400 ≡ concat (event_pieces snapshot 86400))
json_complete_example = json_complete default view snapshot 86400 (default-IsValid.ip) (omega arith)

abbrev typed_login : Bytes
typed_login = form_body (
    filled_in (form_fields (codes "/login") false (concat (send_login_form login_401 none)))
      (codes "admin") (codes "pass"))

abbrev login_request : ParsedRequest
login_request = record {
  raw = 13 ∷ 10 ∷ 13 ∷ 10 ∷ typed_login;
  method = codes "POST";
  path = codes "/login";
  query = [];
}
