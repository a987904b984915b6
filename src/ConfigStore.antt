-- ===== src/ConfigStore.antt =====
-- src/config.rs: the network configuration in the EEPROM, at byte offset 16.
pub mod Stored
mod Tests
use jzf407_rust.Prelude.{ℕ, Bool, true, false, Option, none, some, ◌>>=◌, unwrap_or, if◌then◌else◌}
use jzf407_rust.Eeprom.{Bus, Cell, write_bytes, try_read}
use jzf407_rust.NetConfig.{NetworkConfig, len, default, to_bytes, from_bytes}

abbrev pub base : ℕ
base = 16

-- `Result<(), i2c::Error>`; `overrun` is also what an EEPROM that was never registered gives.
pub data Saved : Type 0 where
  done overrun failed : Saved

module _ (bus : Bus) where
  unfoldable pub load_config : Cell bus → Cell bus × NetworkConfig
  load_config cell =
      let got = try_read bus cell base len in (got.0, unwrap_or (got.1 >>= from_bytes) default)

  save_chip : Cell bus → Option bus.Dev → NetworkConfig → Cell bus × Saved
  save_chip cell none cfg = (cell, overrun)
  save_chip cell (some d) cfg =
      let wrote = write_bytes bus d base (to_bytes cfg) in
      (record cell { chip = some wrote.0 }, if wrote.1 then done else failed)

  -- `lock().await`: the cell is free when the function goes on, and again when it returns.
  unfoldable pub save_config : Cell bus → NetworkConfig → Cell bus × Saved
  unfolding save_chip
  save_config cell cfg = save_chip (record cell { held = false }) cell.chip cfg
