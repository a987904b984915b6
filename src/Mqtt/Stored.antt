-- ===== src/Mqtt/Stored.antt =====
-- A switched LED stays switched across a restart.
use jzf407_rust.Prelude.{◌≡◌, ◌≢◌, ◌⊎◌, refl, Bool, true, false, some, Bytes}
use jzf407_rust.Text.{codes}
use jzf407_rust.Eeprom.{Bus}
use jzf407_rust.Persistence.{
  OutputState, cached_or_default, is_cached, load_state, save_field, save_led1, base,
}
use jzf407_rust.Persistence.Cache.{Synced, attempt, next, load_state-save_field}
use jzf407_rust.Outputs.{OutputPins, set, get_led}
use jzf407_rust.Outputs as Out
use jzf407_rust.Outputs.Pins.{get_led-set}
use jzf407_rust.LedDispatch.{led1, parse_bool}
use jzf407_rust.LedDispatch.Commands.{dispatch_iff}
use jzf407_rust.Mqtt.{Event, publish, Device, perform, handle_event}

abbrev pub set_led1 : Bool → OutputState → OutputState
set_led1 on s = record s { led1 = on }

abbrev pub message : Bytes → Event
message payload = publish false (codes "stm32/led/1") payload

pub handled :
    (bus : Bus) (dev : Device bus) (on : Bool) (payload : Bytes)
    → parse_bool payload ≡ some on
    → handle_event bus (message payload) dev ≡ perform bus (some (led1 on)) dev
unfolding handle_event
handled bus dev on payload says =
    rw ((dispatch_iff (codes "stm32/led/1") payload (led1 on)).1 (refl, says)) refl

module _ (bus : Bus) (dev : Device bus) (d : bus.Dev) (chip : dev.store.cell.chip ≡ some d)
    (free : dev.store.cell.held ≡ false) where
  module _ (on : Bool) (payload : Bytes) (says : parse_bool payload ≡ some on) where
    -- A message on `stm32/led/1` that is not retained and spells a level switches LED 1 to that
    -- level and leaves LED 2; and when the state was stored already or its write succeeds, the next
    -- boot loads LED 1 as it was switched and LED 2 as it was known, if the bus completes that read.
    -- (The pins and the EEPROM are registered, no lock is held, and the cache is in step with the chip.)
    pub led_switched_and_stored :
        (pins : OutputPins) (buf : Bytes)
        → dev.outputs.held ≡ false
        → dev.outputs.pins ≡ some pins
        → Synced bus d dev.store.cache
        → (is_cached dev.store.cache (next bus dev.store d chip (set_led1 on)) ≡ true)
          ⊎ ((attempt bus dev.store d chip (set_led1 on)).1 ≡ true)
        → ((d' : bus.Dev)
            → (save_field bus dev.store (set_led1 on)).cell.chip ≡ some d'
            → (bus.blocking_write_read d' base 8).1 ≡ some buf)
        → (get_led Out.led1 (handle_event bus (message payload) dev).device.outputs ≡ on)
          × (get_led Out.led2 (handle_event bus (message payload) dev).device.outputs
              ≡ get_led Out.led2 dev.outputs)
          × ((load_state bus (handle_event bus (message payload) dev).device.store).1
              ≡ set_led1 on (cached_or_default dev.store.cache))
    unfolding perform save_led1
    led_switched_and_stored pins buf unlocked has sync known reads =
        let seen = get_led-set Out.led1 Out.led2 on dev.outputs pins led2≢led1 unlocked has in
        rw (handled bus dev on payload says) (
          seen.0,
          seen.1,
          load_state-save_field bus dev.store d free chip (set_led1 on) buf sync known reads,
        )
      where
        led2≢led1 : Out.led2 ≢ Out.led1
        led2≢led1 e = cc
