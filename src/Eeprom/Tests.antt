-- ===== src/Eeprom/Tests.antt =====
-- Runs of the EEPROM driver on a simulated chip.
use jzf407_rust.Prelude.{◌≡◌, refl, true, false, [], ◌∷◌}
use jzf407_rust.Eeprom.{bytes_from, write_bytes}
use jzf407_rust.Eeprom.Simulated.{simulated, blank}

written :
    bytes_from (simulated.view (write_bytes simulated (blank []) 3 (1 ∷ 2 ∷ [])).0) 2 4
    ≡ 0xff ∷ 1 ∷ 2 ∷ 0xff ∷ []
unfolding write_bytes
written = refl

-- The second byte is refused: the first is stored, and the write reports the failure.
half_written : (write_bytes simulated (blank (true ∷ false ∷ [])) 3 (1 ∷ 2 ∷ [])).1 ≡ false
unfolding write_bytes
half_written = refl
