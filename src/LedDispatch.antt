-- ===== src/LedDispatch.antt =====
-- logic/src/led_dispatch.rs: MQTT topic and payload to an output command.
pub mod Commands
mod Tests
use jzf407_rust.Prelude.{
  Bool, true, false, ◌||◌, Option, none, some, Bytes, bytes_eq, if◌then◌else◌, ◌>>=◌,
}
use jzf407_rust.Text.{codes}

pub data OutputCmd : Type 0 where
  led1 led2 all_leds relay : Bool → OutputCmd
  ping reboot unknown : OutputCmd

-- The four spellings of each switch position.
unfoldable pub parse_bool : Bytes → Option Bool
parse_bool payload =
    if bytes_eq payload (codes "1")
      || bytes_eq payload (codes "on")
      || bytes_eq payload (codes "ON")
      || bytes_eq payload (codes "true")
    then some true
    else if bytes_eq payload (codes "0")
        || bytes_eq payload (codes "off")
        || bytes_eq payload (codes "OFF")
        || bytes_eq payload (codes "false")
    then some false
    else none

unfoldable pub dispatch : Bytes → Bytes → Option OutputCmd
dispatch topic payload = do
  on ← parse_bool payload
  (if bytes_eq topic (codes "stm32/led/1")
      then some (led1 on)
      else if bytes_eq topic (codes "stm32/led/2")
      then some (led2 on)
      else if bytes_eq topic (codes "stm32/led/all")
      then some (all_leds on)
      else if bytes_eq topic (codes "stm32/relay")
      then some (relay on)
      else none)

unfoldable pub dispatch_special : Bytes → Option OutputCmd
dispatch_special topic =
    if bytes_eq topic (codes "stm32/ping")
    then some ping
    else if bytes_eq topic (codes "stm32/cmd/reboot")
    then some reboot
    else none
