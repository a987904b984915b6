-- ===== src/LedDispatch/Tests.antt =====
-- Runs of the dispatch, and its theorems at concrete messages.
use jzf407_rust.Prelude.{◌≡◌, ◌↔◌, refl, true, false, none, some, bytes_eq}
use jzf407_rust.Text.{codes}
use jzf407_rust.LedDispatch.{led2, relay, parse_bool, dispatch}
use jzf407_rust.LedDispatch.Commands.{output_topic, level, dispatch_iff}

relay_on : dispatch (codes "stm32/relay") (codes "ON") ≡ some (relay true)
unfolding dispatch parse_bool bytes_eq
relay_on = refl

bad_payload : dispatch (codes "stm32/led/1") (codes "On") ≡ none
unfolding dispatch parse_bool bytes_eq
bad_payload = refl

dispatch_iff_example : (dispatch (codes "stm32/led/2") (codes "off") ≡ some (led2 false)) ↔ (
    (output_topic (led2 false) ≡ some (codes "stm32/led/2"))
    × (parse_bool (codes "off") ≡ level (led2 false)))
dispatch_iff_example = dispatch_iff (codes "stm32/led/2") (codes "off") (led2 false)
