-- ===== src/FaultMarker/Reported.antt =====
-- Each reset is reported once, and a marked one before all flags.
use jzf407_rust.Prelude.{ℕ, ◌≡◌, ◌≢◌, refl, arith}
use jzf407_rust.FaultMarker.{remote_reboot, Csr, reason_of, read_and_clear, mark_remote_reboot}

-- A marked reboot is reported as one, whatever flags the reset sets; the marker is then gone: the
-- next reset is not reported as a marked reboot, a stack overflow or a failed allocation, and by
-- its flags alone.
pub remote_reboot_once :
    (marker : ℕ) (flags later : Csr)
    → let first = read_and_clear (record { marker = mark_remote_reboot marker; csr = flags }) in
      (first.1 ≡ remote_reboot)
      × ((read_and_clear (record first.0 { csr = later })).1
          ≡ reason_of (record { marker = 0; csr = later }))
      × ((read_and_clear (record first.0 { csr = later })).1 ≢ remote_reboot)
unfolding read_and_clear mark_remote_reboot reason_of
remote_reboot_once marker flags later = (refl, refl, λ e. ground arith)
