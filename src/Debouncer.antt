-- ===== src/Debouncer.antt =====
-- logic/src/debouncer.rs: a shift register of samples and the debounced level.
pub mod History
mod Tests
use jzf407_rust.Prelude.{
  ℕ, ◌-◌, ◌*◌, ◌%◌, ◌^◌, bit_and, bit_or, Bool, true, false, not, ◌&&◌, Option, none, some, ◌==◌,
  if◌then◌else◌,
}

abbrev pub stable_count : ℕ
stable_count = 4

-- `((1u16 << STABLE_COUNT) - 1) as u8`
abbrev pub stable_mask : ℕ
stable_mask = (2 ^ stable_count - 1) % 256

pub data Edge : Type 0 where
  rising falling : Edge

-- `history` is a byte, the newest sample in its lowest bit.
pub record Debouncer : Type 0 where
  pub history : ℕ
  pub stable : Bool

-- `raw as u8`
abbrev pub bit : Bool → ℕ
bit true = 1
bit false = 0

pub new : Bool → Debouncer
new initial = record { history = if initial then 0xff else 0x00; stable = initial }

pub update : Debouncer → Bool → Debouncer × Option Edge
update d raw =
    let history = bit_or (d.history * 2 % 256) (bit raw) in
    let window = bit_and history stable_mask in
    if window == stable_mask && not d.stable
    then (record { history = history; stable = true }, some rising)
    else if window == 0 && d.stable
    then (record { history = history; stable = false }, some falling)
    else (record d { history = history }, none)

pub state : Debouncer → Bool
state d = d.stable
