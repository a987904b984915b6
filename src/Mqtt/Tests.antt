-- ===== src/Mqtt/Tests.antt =====
-- Events at a concrete device on a simulated chip.
use jzf407_rust.Prelude.{
  ◌≡◌, ◌↔◌, arith, inl, refl, true, false, none, some, [], ◌∷◌, Bytes, All, bytes_eq,
}
use jzf407_rust.Text.{codes}
use jzf407_rust.Eeprom.Simulated.{simulated, blank}
use jzf407_rust.FaultMarker.{tag_remote_reboot}
use jzf407_rust.LedDispatch.{relay, parse_bool, dispatch}
use jzf407_rust.Mqtt.{
  Event, publish, Device, handle_event, subscribe_topics, subscribe_all, subscribe_loop,
}
use jzf407_rust.Mqtt.Events.{handle_event_restarts_iff}
use jzf407_rust.Mqtt.Topics.{Among, commands_subscribed}
use jzf407_rust.Mqtt.Stored.{message}
use jzf407_rust.Mqtt.Shown.{led_command_shown}
use jzf407_rust.Text.Utf8.{concat}
use jzf407_rust.Sse.{Snapshot, sample}
use jzf407_rust.Sse.Writes.{Turn, serve_events}
use jzf407_rust.Sse.EventSource.{body_of, events, page_after}

abbrev device : Device simulated
device = record {
  outputs = record {
    held = false;
    pins = some (record { led1_pin = true; led2_pin = true; relay_pin = false });
  };
  store = record { cell = record { held = false; chip = some (blank []) }; cache = none };
  trigger = none;
  relay_change = none;
  marker = 0;
}

abbrev old_reboot : Event
old_reboot = publish true (codes "stm32/cmd/reboot") []

handle_event_restarts_iff_example : ((handle_event simulated old_reboot device).restarts ≡ true) ↔ (
    (payload : Bytes) × (old_reboot ≡ publish false (codes "stm32/cmd/reboot") payload)
    × ((handle_event simulated old_reboot device).device.marker ≡ tag_remote_reboot))
handle_event_restarts_iff_example = handle_event_restarts_iff simulated device old_reboot

relay_command : dispatch (codes "stm32/relay") (codes "1") ≡ some (relay true)
unfolding dispatch parse_bool bytes_eq
relay_command = refl

all_accepted : (subscribe_all (λ t. true) (λ t. true)).1 ≡ true
unfolding subscribe_all subscribe_loop
all_accepted = refl

commands_subscribed_example :
    ((subscribe_all (λ t. true) (λ t. true)).0 ≡ subscribe_topics)
    × All (λ t. true ≡ true) subscribe_topics
    × Among (codes "stm32/relay") (subscribe_all (λ t. true) (λ t. true)).0
commands_subscribed_example =
    commands_subscribed (λ t. true) (λ t. true) (codes "stm32/relay") (codes "1") (relay true)
      (refl, (refl, (refl, (refl, (refl, (refl, tt)))))) all_accepted (inl relay_command)

switches_on : parse_bool (codes "on") ≡ some true
unfolding parse_bool bytes_eq
switches_on = refl

abbrev dark : Snapshot
dark = record { relay = false; led1_on = false; led2_on = false; link = false; mqtt = false }

abbrev opening : Turn
opening = record { seen = dark; clock = 1000; takes = true }

abbrev switched : Snapshot
switched = sample (handle_event simulated (message (codes "on")) device).device.outputs true true

abbrev after_switch : Turn
after_switch = record { seen = switched; clock = 1150; takes = true }

led_command_shown_example :
    page_after dark (events (body_of (concat (serve_events true opening (after_switch ∷ [])))))
    ≡ record (sample device.outputs true true) { led1_on = true }
led_command_shown_example =
    led_command_shown simulated device true true true (codes "on")
      (record { led1_pin = true; led2_pin = true; relay_pin = false }) dark opening [] 1150
      switches_on refl refl (record { takes = refl; clock_lt = omega arith }, tt) (omega arith)
