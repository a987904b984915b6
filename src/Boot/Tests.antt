-- ===== src/Boot/Tests.antt =====
-- A boot from a simulated chip, and a bus that a chip holds.
use jzf407_rust.Prelude.{
  ℕ, ◌-◌, ◌≤◌, ◌≡◌, ◌⊎◌, inr, refl, subst, some_inj, Bool, true, false, none, some, [], ◌∷◌, Bytes,
  ◌==◌, ltb, contains, if◌then◌else◌, arith, bytes_eq,
}
use jzf407_rust.Text.{codes}
use jzf407_rust.Eeprom.Simulated.{Chip, simulated, blank, write_bytes_willing}
use jzf407_rust.Eeprom.{write_bytes, init_global, bytes_from}
use jzf407_rust.NetConfig.Valid.{IsValid}
use jzf407_rust.Persistence.{image, cached_or_default, is_cached, save_field, save_led1}
use jzf407_rust.Outputs.{led1, led2, set, get_led, get_relay}
use jzf407_rust.LedDispatch.{parse_bool, dispatch}
use jzf407_rust.FaultMarker.{no_flags, remote_reboot, read_and_clear}
use jzf407_rust.Mqtt.{Device, publish, publish_retained, perform, handle_event}
use jzf407_rust.Mqtt.Connect.{topic_diag}
use jzf407_rust.Mqtt.Task.{announcements}
use jzf407_rust.Mqtt.Task.Beats.{Sends}
use jzf407_rust.Web.{panic, value, initial, saved_page}
use jzf407_rust.Web.Request.{ParsedRequest, body}
use jzf407_rust.Web.Form.{parse_form, form_loop, form_step, set_field}
use jzf407_rust.Web.Serve.{Served, save_and_reboot}
use jzf407_rust.Web.Serve.NextBoot.{Readable}
use jzf407_rust.WebForm.{form_url_decode}
use jzf407_rust.NetConfig.{NetworkConfig, default, to_bytes, parse_ipv4}
use jzf407_rust.NetConfig.Valid.{default-IsValid}
use jzf407_rust.ConfigStore.{save_config}
use jzf407_rust.Text.Utf8.{valid_utf8, trim}
use jzf407_rust.Text.Split.{split, key_value, after_first, strip_prefix}
use jzf407_rust.Text.Decimal.{parse_uint}
use jzf407_rust.Boot.{Board, StaticConfig, static_of, at_reset, lit, first_load, second_load, main}
use jzf407_rust.Boot.Recovery.{
  Lines, pulse_loop, pulses, stop, idle, recover_bus, recovery_ends, recovery_frees_bus,
}
use jzf407_rust.Boot.Lights.{once_read}
use jzf407_rust.Boot.Safe.{come_up, main_comes_up, saved_address_stops_board}
use jzf407_rust.Boot.Reboot.{told, led_survives_restart, remote_reboot_announced}

-- A chip in the middle of sending: it holds SDA low for so many falls of SCL.
record Holding : Type 0 where
  falls : ℕ
  scl : Bool

abbrev fall : Bool → Holding → Holding
fall true h = record h { scl = true }
fall false h = record { falls = h.falls - 1; scl = false }

abbrev holding : Lines
holding = record {
  State = Holding;
  set_scl = fall;
  set_sda = λ on h. h;
  sda_is_high = λ h. h.falls == 0;
}

abbrev stuck : Holding
stuck = record { falls = 6; scl = true }

recovery_ends_example :
    (n : ℕ) × (1 ≤ n)
    × (n ≤ 9)
    × (recover_bus holding stuck ≡ stop holding (pulses holding n (idle holding stuck)))
    × ((holding.sda_is_high (pulses holding n (idle holding stuck)) ≡ true) ⊎ (n ≡ 9))
recovery_ends_example = recovery_ends holding stuck

recovery_frees_bus_example :
    (n : ℕ) × (n ≤ 6)
    × (pulse_loop holding 9 stuck ≡ pulses holding n stuck)
    × (holding.sda_is_high (pulse_loop holding 9 stuck) ≡ true)
recovery_frees_bus_example = recovery_frees_bus holding stuck 5 (omega arith) refl

abbrev board : Board simulated
board = record { cause = record { marker = 0; csr = no_flags }; chip = blank []; uid = λ k. k }

-- A network stack that takes no address from 224.0.0.0 on: no multicast, no broadcast.
abbrev unicast_only : StaticConfig → Bool
unicast_only net = ltb net.cidr.address.a 224

main_comes_up_example :
    IsValid (first_load simulated (blank [])).1
    × (main simulated unicast_only (at_reset simulated) board ≡ (
        if unicast_only (static_of (first_load simulated (blank [])).1)
        then value (come_up simulated unicast_only board)
        else panic))
main_comes_up_example = main_comes_up simulated unicast_only board (λ x. omega arith)

abbrev multicast : NetworkConfig
multicast = record default { ip = record { a = 224; b = 0; c = 0; d = 1 } }

abbrev posted : ParsedRequest
posted = record {
  raw = 13 ∷ 10 ∷ 13 ∷ 10 ∷ codes "ip=224.0.0.1";
  method = codes "POST";
  path = codes "/save";
  query = [];
}

has_body : body posted ≡ some (codes "ip=224.0.0.1")
unfolding body after_first strip_prefix
has_body = refl

parses : parse_form (codes "ip=224.0.0.1") default ≡ some multicast
unfolding parse_form form_loop split form_step form_url_decode trim key_value contains valid_utf8
    set_field bytes_eq parse_ipv4 parse_uint
parses = refl

readable :
    (next : NetworkConfig) → Readable simulated (blank []) default default-IsValid initial next
readable next =
    let written = (write_bytes simulated (blank []) 16 (to_bytes next)).0 in
    (bytes_from written.memory 16 175, rw (write_bytes_willing 16 (to_bytes next)) refl)

abbrev saving : Served simulated
saving =
    save_and_reboot simulated posted default initial
      (record { held = false; chip = some (blank []) })

abbrev written : Chip
written = (write_bytes simulated (blank []) 16 (to_bytes multicast)).0

saves : saving.reply ≡ saved_page
unfolding save_and_reboot body after_first strip_prefix parse_form form_loop split form_step
    form_url_decode trim key_value contains valid_utf8 set_field bytes_eq parse_ipv4 parse_uint
    save_config write_bytes to_bytes default
saves = refl

left : saving.eeprom ≡ init_global simulated written
unfolding save_and_reboot body after_first strip_prefix parse_form form_loop split form_step
    form_url_decode trim key_value contains valid_utf8 set_field bytes_eq parse_ipv4 parse_uint
    save_config write_bytes to_bytes default
left = refl

saved_address_stops_board_example :
    main simulated unicast_only (at_reset simulated) (record board { chip = written }) ≡ panic
saved_address_stops_board_example =
    saved_address_stops_board simulated unicast_only (blank []) default multicast default-IsValid
      initial posted (codes "ip=224.0.0.1") (record board { chip = written }) has_body parses refl
      readable saves left

abbrev device : Device simulated
device = record {
  outputs = record {
    held = false;
    pins = some (record { led1_pin = true; led2_pin = true; relay_pin = false });
  };
  store = record { cell = record { held = false; chip = some (blank []) }; cache = none };
  trigger = none;
  relay_change = none;
  marker = 0;
}

switches_on : parse_bool (codes "on") ≡ some true
unfolding parse_bool bytes_eq
switches_on = refl

remote_reboot_announced_example :
    ((handle_event simulated (publish false (codes "stm32/cmd/reboot") []) device).restarts ≡ true)
    × ((read_and_clear (record {
      marker =
          (handle_event simulated
            (publish false (codes "stm32/cmd/reboot") [])
            device).device.marker;
      csr = no_flags;
    })).1
        ≡ remote_reboot)
    × Sends (publish_retained topic_diag (codes "remote_reboot")) (
        announcements simulated
          (λ t. true)
          (read_and_clear (record {
            marker =
                (handle_event simulated
                  (publish false (codes "stm32/cmd/reboot") [])
                  device).device.marker;
            csr = no_flags;
          })).1)
remote_reboot_announced_example = remote_reboot_announced simulated device [] no_flags (λ t. true)

abbrev stored : Bytes
stored = 0xca ∷ 0xfe ∷ 0xf0 ∷ 0x0d ∷ 0 ∷ 1 ∷ 0 ∷ 0 ∷ []

abbrev after : Device simulated
after = told simulated device (blank []) refl refl true (codes "on") switches_on

read_at_boot :
    (x : Chip)
    → after.store.cell.chip ≡ some x
    → (simulated.blocking_write_read (once_read simulated x) 0 8).1 ≡ some stored
unfolding handle_event dispatch parse_bool bytes_eq perform save_led1 save_field is_cached
    write_bytes image set
read_at_boot x e =
    subst (λ t. (simulated.blocking_write_read (once_read simulated t) 0 8).1 ≡ some stored)
      (some_inj e) refl

led_survives_restart_example :
    (d' : Chip) × (after.store.cell.chip ≡ some d')
    × (get_led led1 (lit (second_load simulated d').1) ≡ true)
    × (get_led led2 (lit (second_load simulated d').1) ≡ (cached_or_default none).led2)
    × (get_relay (lit (second_load simulated d').1) ≡ false)
unfolding write_bytes image
led_survives_restart_example =
    led_survives_restart simulated device (blank []) refl refl true (codes "on") switches_on stored
      tt (inr refl) read_at_boot
