-- ===== src/Boot/Safe.antt =====
-- What of the stored bytes decides whether the board comes up.
use jzf407_rust.Prelude.{
  ℕ, ◌<◌, ◌≡◌, ap, ◌∙◌, sym, refl, subst, if◌then◌else◌, Bool, false, some, some_inj, le→leb, Bytes,
}
use jzf407_rust.Eeprom.{Bus, Cell, init_global}
use jzf407_rust.NetConfig.{NetworkConfig}
use jzf407_rust.NetConfig.Valid.{IsValid}
use jzf407_rust.ConfigStore.{load_config}
use jzf407_rust.ConfigStore.Stored.{load_config-IsValid}
use jzf407_rust.FaultMarker.{read_and_clear}
use jzf407_rust.Web.{panic, value, SessionState, saved_page}
use jzf407_rust.Web.Request.{ParsedRequest, body}
use jzf407_rust.Web.Form.{parse_form}
use jzf407_rust.Web.Serve.{save_and_reboot}
use jzf407_rust.Web.Serve.NextBoot.{free, Readable, load_config-save_and_reboot}
use jzf407_rust.Boot.{
  Board, Booted, StaticConfig, lit, from_le_bytes, mac_of, tasks_for, static_of, at_reset,
  first_load, second_load, main,
}

module _ (bus : Bus) (takes : StaticConfig → Bool) (b : Board bus) where
  -- What a boot that does not panic leaves.
  abbrev pub come_up : Booted bus
  come_up = record {
    cause = (read_and_clear b.cause).0;
    store = (second_load bus b.chip).0;
    outputs = lit (second_load bus b.chip).1;
    mac_addr = mac_of b.uid;
    net = static_of (first_load bus b.chip).1;
    seed = from_le_bytes b.uid 0 8;
    tasks = tasks_for (first_load bus b.chip).1 (read_and_clear b.cause).1;
  }

  main_valid :
      IsValid (first_load bus b.chip).1
      → main bus takes (at_reset bus) b
        ≡ (if takes (static_of (first_load bus b.chip).1) then value come_up else panic)
  unfolding main
  main_valid v = rw (le→leb (first_load bus b.chip).1.prefix_len 32 v.prefix_le) refl

  -- Nothing that the EEPROM holds but an address that the network stack does not take can keep the
  -- board from coming up: whatever it holds, and whatever of it can be read, the configuration that
  -- `main` loads is valid, the locks and `Ipv4Cidr::new` do not panic, and `main` gives that one
  -- configuration to the network, the MQTT task and both web tasks, if `embassy_net::new` takes it;
  -- if not, `main` panics. (What the chip holds are bytes, and the statics are as at a reset.)
  pub main_comes_up :
      ((x : ℕ) → bus.view b.chip x < 256)
      → IsValid (first_load bus b.chip).1
        × (main bus takes (at_reset bus) b
            ≡ (if takes (static_of (first_load bus b.chip).1) then value come_up else panic))
  main_comes_up h =
      let valid =
        load_config-IsValid bus (init_global bus b.chip)
          λ d x e. subst (λ t. bus.view t x < 256) (some_inj e) (h x) in
      (valid, main_valid valid)

-- A form can stop the board: when `/save` answers that it saved a form with an address that
-- `embassy_net::new` does not take, the next boot from that EEPROM panics. (The configuration before
-- was valid, the bus completes the read of the new one, and the statics are as at a reset.)
pub saved_address_stops_board :
    (bus : Bus) (takes : StaticConfig → Bool) (d : bus.Dev) (cfg next : NetworkConfig)
    (valid : IsValid cfg) (s : SessionState) (r : ParsedRequest) (form : Bytes) (b : Board bus)
    → body r ≡ some form
    → parse_form form cfg ≡ some next
    → takes (static_of next) ≡ false
    → ((other : NetworkConfig) → Readable bus d cfg valid s other)
    → (save_and_reboot bus r cfg s (free bus d cfg valid s)).reply ≡ saved_page
    → (save_and_reboot bus r cfg s (free bus d cfg valid s)).eeprom ≡ init_global bus b.chip
    → main bus takes (at_reset bus) b ≡ panic
saved_address_stops_board bus takes d cfg next valid s r form b has parsed refused reads saved
      left =
    let (f, other, has', parsed', fits, loads) =
      load_config-save_and_reboot bus d cfg valid s r reads saved in
    let same_form : f ≡ form = some_inj (sym has' ∙ has) in
    let same : other ≡ next =
      some_inj (sym parsed' ∙ ap (λ x. parse_form x cfg) same_form ∙ parsed) in
    let loaded : (first_load bus b.chip).1 ≡ next =
      ap (λ (c : Cell bus). (load_config bus c).1) (sym left) ∙ loads ∙ same in
    main_valid bus takes b (subst IsValid (sym (loaded ∙ sym same)) fits)
    ∙ rw (loaded, refused) refl
