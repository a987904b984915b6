-- ===== src/Storage/Tests.antt =====
-- The two stores on one simulated chip.
use jzf407_rust.Prelude.{◌≡◌, refl, true, false, some, none, []}
use jzf407_rust.Eeprom.{bytes_from, write_bytes}
use jzf407_rust.Eeprom.Simulated.{Chip, simulated, blank}
use jzf407_rust.NetConfig.{default, to_bytes}
use jzf407_rust.NetConfig.Valid.{default-IsValid}
use jzf407_rust.Persistence.{OutputState, Store, image, is_cached, save_field}
use jzf407_rust.ConfigStore.{save_config}
use jzf407_rust.Storage.{save_config_keeps_state, save_field_keeps_config}

abbrev configured : Chip
configured = (write_bytes simulated (blank []) 16 (to_bytes default)).0

save_config_keeps_state_example :
    bytes_from configured.memory 0 8 ≡ bytes_from (blank []).memory 0 8
unfolding save_config
save_config_keeps_state_example =
    save_config_keeps_state simulated (blank []) default {d' = configured} false default-IsValid
      refl

abbrev fresh : Store simulated
fresh = record { cell = record { held = false; chip = some (blank []) }; cache = none }

abbrev lit : OutputState → OutputState
lit t = record { led1 = true; led2 = true }

abbrev saved : Chip
saved = (write_bytes simulated (blank []) 0 (image (record { led1 = true; led2 = true }))).0

save_field_keeps_config_example :
    bytes_from saved.memory 16 175 ≡ bytes_from (blank []).memory 16 175
unfolding save_field is_cached
save_field_keeps_config_example =
    save_field_keeps_config simulated (blank []) fresh lit {d' = saved} refl refl
