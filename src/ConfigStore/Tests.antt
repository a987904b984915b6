-- ===== src/ConfigStore/Tests.antt =====
-- Saves of the network configuration on a simulated chip.
use jzf407_rust.Prelude.{◌≡◌, refl, false, some, []}
use jzf407_rust.Eeprom.{Cell, bytes_from, write_bytes}
use jzf407_rust.Eeprom.Simulated.{Chip, simulated, blank}
use jzf407_rust.NetConfig.{default, to_bytes}
use jzf407_rust.NetConfig.Valid.{default-IsValid}
use jzf407_rust.ConfigStore.{load_config, save_config}
use jzf407_rust.ConfigStore.Stored.{load_config-save_config}

abbrev cell : Cell simulated
cell = record { held = false; chip = some (blank []) }

abbrev after : Chip
after = (write_bytes simulated (blank []) 16 (to_bytes default)).0

load_config-save_config_example :
    (load_config simulated (save_config simulated cell default).0).1 ≡ default
unfolding save_config write_bytes to_bytes default
load_config-save_config_example =
    load_config-save_config simulated (blank []) default default-IsValid
      (bytes_from after.memory 16 175) refl refl
