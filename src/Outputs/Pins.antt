-- ===== src/Outputs/Pins.antt =====
-- What is set is what is read back, for both polarities.
use jzf407_rust.Prelude.{◌≡◌, ◌≢◌, Bool, false, some, arith}
use jzf407_rust.Outputs.{LedId, led1, led2, OutputPins, SharedOutputs, set, get_relay, get_led}

-- With the pins registered and the lock free, an LED that was set reads as it was set, and neither
-- the other LED nor the relay is touched.
pub get_led-set :
    (led other : LedId) (on : Bool) (o : SharedOutputs) (p : OutputPins)
    → other ≢ led
    → o.held ≡ false
    → o.pins ≡ some p
    → (get_led led (set led on o) ≡ on)
      × (get_led other (set led on o) ≡ get_led other o)
      × (get_relay (set led on o) ≡ get_relay o)
unfolding get_led set get_relay
get_led-set led1 led1 on o p apart free has = ground arith
get_led-set led1 led2 on o p apart free has = ground arith
get_led-set led2 led1 on o p apart free has = ground arith
get_led-set led2 led2 on o p apart free has = ground arith
