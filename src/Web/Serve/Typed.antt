-- ===== src/Web/Serve/Typed.antt =====
-- A configuration that is typed into the form, saved, and loaded by the next boot.
use jzf407_rust.Prelude.{◌≡◌, sym, ap, ◌∙◌, some, some_inj, Bytes}
use jzf407_rust.Eeprom.{Bus}
use jzf407_rust.NetConfig.{NetworkConfig}
use jzf407_rust.NetConfig.Valid.{IsValid}
use jzf407_rust.ConfigStore.{load_config}
use jzf407_rust.Web.{SessionState, saved_page}
use jzf407_rust.Web.Request.{ParsedRequest, body}
use jzf407_rust.Web.Form.RoundTrip.{typed, read_back, parse_form-form_body}
use jzf407_rust.Web.Form.{parse_form}
use jzf407_rust.Web.Browser.{form_body}
use jzf407_rust.Web.Serve.{save_and_reboot}
use jzf407_rust.Web.Serve.NextBoot.{free, Readable, load_config-save_and_reboot}

-- When a valid configuration is typed into the form, the browser sends it to `/save`, and the answer
-- says that it was saved, then the next boot loads what was typed, with the current password where a
-- password field was left blank, if the bus completes that read.
pub typed_configuration_boots :
    (bus : Bus) (d : bus.Dev) (cfg : NetworkConfig) (v : IsValid cfg) (s : SessionState)
    (r : ParsedRequest) (new : NetworkConfig)
    → IsValid new
    → ((next : NetworkConfig) → Readable bus d cfg v s next)
    → body r ≡ some (form_body (typed new))
    → (save_and_reboot bus r cfg s (free bus d cfg v s)).reply ≡ saved_page
    → (load_config bus (save_and_reboot bus r cfg s (free bus d cfg v s)).eeprom).1
      ≡ read_back cfg new
typed_configuration_boots bus d cfg v s r new w reads has e =
    let (b, next, same, parsed, _, loads) = load_config-save_and_reboot bus d cfg v s r reads e in
    let bodies : b ≡ form_body (typed new) = some_inj (sym same ∙ has) in
    loads
    ∙ some_inj
        (sym parsed ∙ ap (λ (x : Bytes). parse_form x cfg) bodies ∙ parse_form-form_body cfg new w)
