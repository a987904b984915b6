-- ===== src/Web/Serve/Protected.antt =====
-- A login that is set up stays set up.
use jzf407_rust.Prelude.{ℕ, ◌≡◌, refl, true, false, Bool, not, ◌||◌, [], ◌∷◌, Bytes}
use jzf407_rust.Eeprom.{Bus}
use jzf407_rust.NetConfig.{NetworkConfig}
use jzf407_rust.NetConfig.Valid.{IsValid}
use jzf407_rust.ConfigStore.{load_config}
use jzf407_rust.Web.{SessionState, saved_page}
use jzf407_rust.Web.Request.{ParsedRequest}
use jzf407_rust.Web.Form.Kept.{Set, parse_form-Set}
use jzf407_rust.Web.Serve.{start_server, is_empty, save_and_reboot}
use jzf407_rust.Web.Serve.NextBoot.{free, Readable, load_config-save_and_reboot}

required :
    (cfg : NetworkConfig) (now : ℕ) → Set cfg.web_pass → (start_server cfg now).auth_required ≡ true
unfolding start_server
required cfg now h = given (not (is_empty cfg.web_user)) cfg.web_pass h
  where
    given : (b : Bool) (pass : Bytes) → Set pass → (b || not (is_empty pass)) ≡ true
    given true pass k = refl
    given false (c ∷ rest) k = refl
    given false [] k = absurd k

-- Once a web password is set, no form turns the login off: whatever is posted to `/save`, when the
-- answer says that it was saved, the server that the next boot starts asks for a login. (The bus
-- completes the read of the configuration.)
pub login_stays_required :
    (bus : Bus) (d : bus.Dev) (cfg : NetworkConfig) (v : IsValid cfg) (s : SessionState)
    (r : ParsedRequest) (now : ℕ)
    → Set cfg.web_pass
    → ((next : NetworkConfig) → Readable bus d cfg v s next)
    → (save_and_reboot bus r cfg s (free bus d cfg v s)).reply ≡ saved_page
    → (start_server
        (load_config bus (save_and_reboot bus r cfg s (free bus d cfg v s)).eeprom).1
        now).auth_required
      ≡ true
login_stays_required bus d cfg v s r now set reads e =
    let (b, next, _, parsed, _, loads) = load_config-save_and_reboot bus d cfg v s r reads e in
    rw loads (required next now (parse_form-Set cfg set b next parsed))
