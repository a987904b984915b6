-- ===== src/Outputs/Tests.antt =====
-- The outputs and the relay task at concrete pins and times.
use jzf407_rust.Prelude.{◌≡◌, refl, true, false, none, some, arith}
use jzf407_rust.Outputs.{
  pulse, OutputPins, SharedOutputs, get_relay, set_relay, pulsing, RelayState, relay_task, signal,
}
use jzf407_rust.Outputs.Relay.{RelayRun, boot, command, turn, relay_pulse_ends}

abbrev dark : OutputPins
dark = record { led1_pin = true; led2_pin = true; relay_pin = false }

abbrev outputs : SharedOutputs
outputs = record { held = false; pins = some dark }

abbrev lit : RelayState
lit = record {
  phase = pulsing 2500;
  trigger = none;
  outputs = record { held = false; pins = some (record dark { relay_pin = true }) };
  relay_change = none;
}

pulsed : RelayRun 500 lit
unfolding signal relay_task set_relay
pulsed = turn 500 (command pulse (boot 0 refl)) (omega arith) refl

is_on : get_relay lit.outputs ≡ true
unfolding get_relay
is_on = refl

relay_pulse_ends_example :
    (s' : RelayState) × (relay_task 2500 lit ≡ some s')
    × (get_relay s'.outputs ≡ false)
    × (s'.relay_change ≡ some false)
relay_pulse_ends_example = relay_pulse_ends 2500 pulsed is_on (omega arith)
