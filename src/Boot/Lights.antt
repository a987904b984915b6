-- ===== src/Boot/Lights.antt =====
-- What the outputs show when the board has come up.
use jzf407_rust.Prelude.{◌≡◌, refl, ap, ◌∙◌, false, none, some, Bytes, arith}
use jzf407_rust.Eeprom.{Bus, Cell, bytes_from, init_global, read, try_read}
use jzf407_rust.NetConfig.{len}
use jzf407_rust.ConfigStore.{load_config}
use jzf407_rust.ConfigStore
use jzf407_rust.Persistence.{OutputState, Store, state_of, load_state}
use jzf407_rust.Persistence
use jzf407_rust.Persistence.Cache.{load_chip}
use jzf407_rust.Storage.{bytes_from_eq}
use jzf407_rust.Outputs.{led1, led2, register, set, get_led, get_relay}
use jzf407_rust.Boot.{lit, first_load, second_load}

lit_shows :
    (saved : OutputState)
    → (get_led led1 (lit saved) ≡ saved.led1)
      × (get_led led2 (lit saved) ≡ saved.led2)
      × (get_relay (lit saved) ≡ false)
unfolding get_led get_relay set register
lit_shows saved = ground arith

module _ (bus : Bus) (d : bus.Dev) where
  -- The chip behind the read of the configuration.
  abbrev pub once_read : bus.Dev
  once_read = (bus.blocking_write_read d ConfigStore.base len).0

  first_cell : (first_load bus d).0 ≡ init_global bus once_read
  unfolding load_config try_read read
  first_cell = refl

  -- With the LED state read, the LEDs come up as it says; and in every case the relay is off.
  pub boot_lights :
      (buf : Bytes)
      → (bus.blocking_write_read once_read Persistence.base 8).1 ≡ some buf
      → let saved = state_of (bytes_from (bus.view d) Persistence.base 8) in
        (get_led led1 (lit (second_load bus d).1) ≡ saved.led1)
        × (get_led led2 (lit (second_load bus d).1) ≡ saved.led2)
        × (get_relay (lit (second_load bus d).1) ≡ false)
  boot_lights buf e = rw loaded (lit_shows (state_of (bytes_from (bus.view d) Persistence.base 8)))
    where
      loaded : (second_load bus d).1 ≡ state_of (bytes_from (bus.view d) Persistence.base 8)
      loaded =
          load_chip bus (record { cell = (first_load bus d).0; cache = none }) once_read buf
            (ap (λ (c : Cell bus). c.held) first_cell) (ap (λ (c : Cell bus). c.chip) first_cell) e
          ∙ ap state_of (
              bytes_from_eq _ _ Persistence.base 8
                λ x lo hi. bus.read_keeps d ConfigStore.base len x)
