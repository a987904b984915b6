-- ===== src/Persistence.antt =====
-- src/persistence.rs: the state of the two LEDs, in the EEPROM at offset 0 and cached in RAM.
pub mod Cache
mod Tests
use jzf407_rust.Prelude.{
  ℕ, bit_and, Bool, true, false, not, ◌&&◌, Option, none, some, [], ◌∷◌, Bytes, slice, get_or,
  bytes_eq, ◌==◌, if◌then◌else◌,
}
use jzf407_rust.Eeprom.{Bus, Cell, write_bytes, try_read}

abbrev pub magic : Bytes
magic = 0xca ∷ 0xfe ∷ 0xf0 ∷ 0x0d ∷ []

abbrev pub base : ℕ
base = 0

pub record OutputState : Type 0 where
  pub led1 : Bool
  pub led2 : Bool

abbrev pub default : OutputState
default = record { led1 = false; led2 = false }

-- `on as u8`
abbrev pub bit : Bool → ℕ
bit true = 1
bit false = 0

-- `byte & 1 != 0`
abbrev low_bit : ℕ → Bool
low_bit b = not (bit_and b 1 == 0)

-- The state that eight bytes hold; without the magic bytes, the default.
pub state_of : Bytes → OutputState
state_of buf =
    if bytes_eq (slice buf 0 4) magic
    then record { led1 = low_bit (get_or buf 5 0); led2 = low_bit (get_or buf 6 0) }
    else default

unfoldable pub image : OutputState → Bytes
image s = 0xca ∷ 0xfe ∷ 0xf0 ∷ 0x0d ∷ 0 ∷ bit s.led1 ∷ bit s.led2 ∷ 0 ∷ []

abbrev same : Bool → Bool → Bool
same true b = b
same false b = not b

-- `*cache == Some(state)`
unfoldable pub is_cached : Option OutputState → OutputState → Bool
is_cached none s = false
is_cached (some c) s = same c.led1 s.led1 && same c.led2 s.led2

-- `unwrap_or_default`
abbrev pub cached_or_default : Option OutputState → OutputState
cached_or_default none = default
cached_or_default (some c) = c

-- The EEPROM cell and `STATE_CACHE`.
pub record Store (bus : Bus) : Type 0 where
  pub cell : Cell bus
  pub cache : Option OutputState

module _ (bus : Bus) where
  unfoldable pub loaded : Option Bytes → OutputState
  unfolding state_of
  loaded none = default
  loaded (some buf) = state_of buf

  unfoldable pub load_state : Store bus → Store bus × OutputState
  unfolding loaded
  load_state s =
      let got = try_read bus s.cell base 8 in
      (record { cell = got.0; cache = some (loaded got.1) }, loaded got.1)

  -- The EEPROM part of `save_field`: the cache follows only a write that succeeded.
  write_state : Store bus → Option bus.Dev → OutputState → Store bus
  unfolding image
  write_state s none state = s
  write_state s (some d) state =
      let wrote = write_bytes bus d base (image state) in
      record {
        cell = record s.cell { chip = some wrote.0 };
        cache = if wrote.1 then some state else s.cache;
      }

  -- `lock().await`: both locks are free when the function goes on.
  unfoldable pub save_field : Store bus → (OutputState → OutputState) → Store bus
  unfolding write_state
  save_field s update =
      let state = update (cached_or_default s.cache) in
      if is_cached s.cache state then s else write_state s s.cell.chip state

  unfoldable pub save_led1 : Store bus → Bool → Store bus
  save_led1 s on = save_field s (λ t. record t { led1 = on })

  unfoldable pub save_led2 : Store bus → Bool → Store bus
  save_led2 s on = save_field s (λ t. record t { led2 = on })

  unfoldable pub save_leds : Store bus → Bool → Bool → Store bus
  save_leds s led1 led2 = save_field s (λ t. record { led1 = led1; led2 = led2 })
