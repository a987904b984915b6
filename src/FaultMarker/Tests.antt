-- ===== src/FaultMarker/Tests.antt =====
-- The reset reason at concrete markers and flags.
use jzf407_rust.Prelude.{◌≡◌, refl, true}
use jzf407_rust.FaultMarker.{no_flags, power_on, reason_of, read_and_clear}

-- After power-on the marker is garbage.
garbage :
    (read_and_clear
      (record { marker = 0x12345678; csr = record no_flags { porrstf = true; padrstf = true } })).1
    ≡ power_on
unfolding read_and_clear reason_of
garbage = refl
