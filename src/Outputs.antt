-- ===== src/Outputs.antt =====
-- src/outputs.rs: the pins of the two LEDs and the relay, and the task that owns the relay's pulse.
pub mod Pins
pub mod Relay
mod Tests
use jzf407_rust.Prelude.{ℕ, ◌+◌, Bool, true, false, not, Option, none, some, leb, if◌then◌else◌}

pub data LedId : Type 0 where
  led1 led2 : LedId

pub data RelayCmd : Type 0 where
  pulse off : RelayCmd

-- `Duration::from_secs(2)`, in milliseconds.
abbrev pub relay_pulse : ℕ
relay_pulse = 2000

-- The level of each pin, `true` for high.
pub record OutputPins : Type 0 where
  pub led1_pin : Bool
  pub led2_pin : Bool
  pub relay_pin : Bool

-- `Mutex<Option<OutputPins>>`: whether it is held elsewhere, and the pins once they are registered.
pub record SharedOutputs : Type 0 where
  pub held : Bool
  pub pins : Option OutputPins

abbrev pub new : SharedOutputs
new = record { held = false; pins = none }

unfoldable pub register : SharedOutputs → OutputPins → SharedOutputs
register o pins = if o.held then o else record o { pins = some pins }

-- The level after `drive_active_low(output, on)`.
abbrev pub drive_active_low : Bool → Bool
drive_active_low on = if on then false else true

abbrev drive_led : LedId → Bool → OutputPins → OutputPins
drive_led led1 on p = record p { led1_pin = drive_active_low on }
drive_led led2 on p = record p { led2_pin = drive_active_low on }

abbrev on_pins : (OutputPins → OutputPins) → Option OutputPins → Option OutputPins
on_pins change none = none
on_pins change (some p) = some (change p)

unfoldable pub set : LedId → Bool → SharedOutputs → SharedOutputs
set led on o = if o.held then o else record o { pins = on_pins (drive_led led on) o.pins }

abbrev drive_relay : Bool → OutputPins → OutputPins
drive_relay on p = record p { relay_pin = if on then true else false }

unfoldable pub set_relay : Bool → SharedOutputs → SharedOutputs
set_relay on o = if o.held then o else record o { pins = on_pins (drive_relay on) o.pins }

abbrev reading : (OutputPins → Bool) → Option OutputPins → Bool
reading read none = false
reading read (some p) = read p

unfoldable pub get_relay : SharedOutputs → Bool
get_relay o = if o.held then false else reading (λ p. p.relay_pin) o.pins

abbrev led_low : LedId → OutputPins → Bool
led_low led1 p = not p.led1_pin
led_low led2 p = not p.led2_pin

unfoldable pub get_led : LedId → SharedOutputs → Bool
get_led led o = if o.held then false else reading (led_low led) o.pins

-- Where `relay_task` waits: for a command, or in a pulse that ends at a time in milliseconds.
pub data Phase : Type 0 where
  idle : Phase
  pulsing : ℕ → Phase

-- The task and what it shares: `RELAY_TRIGGER`, which keeps the last command, the pins, and
-- `mqtt::RELAY_CHANGE`.
pub record RelayState : Type 0 where
  pub phase : Phase
  pub trigger : Option RelayCmd
  pub outputs : SharedOutputs
  pub relay_change : Option Bool

-- `pulse_relay` and `relay_off`: a new command replaces one that has not been taken.
unfoldable pub signal : RelayCmd → Option RelayCmd → Option RelayCmd
signal cmd waiting = some cmd

-- Into the inner loop: the pin goes high, and the window starts again.
abbrev pub begin_pulse : ℕ → RelayState → RelayState
begin_pulse now s = record {
  phase = pulsing (now + relay_pulse);
  trigger = none;
  outputs = set_relay true s.outputs;
  relay_change = s.relay_change;
}

-- Out of the inner loop, with what is left in the trigger.
abbrev pub end_pulse : Option RelayCmd → RelayState → RelayState
end_pulse left s = record {
  phase = idle;
  trigger = left;
  outputs = set_relay false s.outputs;
  relay_change = some false;
}

abbrev woken : ℕ → Option RelayCmd → RelayState → Option RelayState
woken now none s = none
woken now (some pulse) s = some (begin_pulse now s)
woken now (some off) s = some (record s { trigger = none })

abbrev pub in_pulse : ℕ → Option RelayCmd → RelayState → Option RelayState
in_pulse now none s = none
in_pulse now (some pulse) s = some (begin_pulse now s)
in_pulse now (some off) s = some (end_pulse none s)

abbrev relay_turn : ℕ → Phase → RelayState → Option RelayState
relay_turn now idle s = woken now s.trigger s
relay_turn now (pulsing until) s =
    if leb until now then some (end_pulse s.trigger s) else in_pulse now s.trigger s

-- One turn of `relay_task` at a time; `none` where it goes on waiting. `select` asks the timer first.
unfoldable pub relay_task : ℕ → RelayState → Option RelayState
relay_task now s = relay_turn now s.phase s
