-- ===== src/FaultMarker.antt =====
-- src/fault_marker.rs: why the board restarted.
pub mod Reported
pub mod SafeReboot
mod Tests
use jzf407_rust.Prelude.{ℕ, Bool, true, false, Bytes, ◌==◌, if◌then◌else◌}
use jzf407_rust.Text.{codes}

abbrev pub tag_stack_overflow : ℕ
tag_stack_overflow = 0xDEAD0001

abbrev pub tag_malloc_fail : ℕ
tag_malloc_fail = 0xDEAD0002

abbrev pub tag_remote_reboot : ℕ
tag_remote_reboot = 0xDEAD0003

abbrev pub tag_clear : ℕ
tag_clear = 0

pub data ResetReason : Type 0 where
  power_on nrst_pin software iwdg_timeout brown_out stack_overflow malloc_failed remote_reboot :
      ResetReason
  unknown : ResetReason

unfoldable pub as_str : ResetReason → Bytes
as_str power_on = codes "power_on"
as_str nrst_pin = codes "nrst_pin"
as_str software = codes "software"
as_str iwdg_timeout = codes "iwdg_timeout"
as_str brown_out = codes "brown_out"
as_str stack_overflow = codes "stack_overflow"
as_str malloc_failed = codes "malloc_failed"
as_str remote_reboot = codes "remote_reboot"
as_str unknown = codes "unknown"

-- The reset flags of RCC_CSR.
pub record Csr : Type 0 where
  pub porrstf : Bool
  pub borrstf : Bool
  pub wdgrstf : Bool
  pub sftrstf : Bool
  pub padrstf : Bool

-- What `rmvf` leaves.
abbrev pub no_flags : Csr
no_flags = record {
  porrstf = false;
  borrstf = false;
  wdgrstf = false;
  sftrstf = false;
  padrstf = false;
}

-- The marker word in CCM and the flags: what survives a reset.
pub record ResetCause : Type 0 where
  pub marker : ℕ
  pub csr : Csr

unfoldable pub reason_of : ResetCause → ResetReason
reason_of c =
    if c.marker == tag_stack_overflow
    then stack_overflow
    else (if c.marker == tag_malloc_fail
        then malloc_failed
        else (if c.marker == tag_remote_reboot
            then remote_reboot
            else (if c.csr.porrstf
                then power_on
                else (if c.csr.borrstf
                    then brown_out
                    else (if c.csr.wdgrstf
                        then iwdg_timeout
                        else (if c.csr.sftrstf
                            then software
                            else (if c.csr.padrstf then nrst_pin else unknown)))))))

unfoldable pub read_and_clear : ResetCause → ResetCause × ResetReason
read_and_clear c = (record { marker = tag_clear; csr = no_flags }, reason_of c)

unfoldable pub mark_remote_reboot : ℕ → ℕ
mark_remote_reboot marker = tag_remote_reboot
