-- ===== src/Eeprom.antt =====
-- src/eeprom.rs: the AT24C02 behind its I2C bus, and the lock that guards it.
-- The bus driver and the chip are a parameter: what a transaction does to the stored bytes.
pub mod Written
pub mod Simulated
mod Tests
use jzf407_rust.Prelude.{
  ℕ, zero, suc, ◌+◌, ◌%◌, ◌≡◌, ◌≢◌, Bool, true, false, Option, none, some, [], ◌∷◌, Bytes,
  if◌then◌else◌,
}

-- `n` bytes of a memory from address `a` on.
abbrev pub bytes_from : (ℕ → ℕ) → ℕ → ℕ → Bytes
bytes_from mem a zero = []
bytes_from mem a (suc n) = mem a ∷ bytes_from mem (suc a) n

-- What the driver and the chip do: `blocking_write` of one byte to one address, and
-- `blocking_write_read` of a run of bytes. A failed write may still have changed its own address,
-- and nothing else.
pub record Bus : Type 1 where
  pub Dev : Type 0
  pub view : Dev → ℕ → ℕ
  pub blocking_write : Dev → ℕ → ℕ → Dev × Bool
  pub blocking_write_read : Dev → ℕ → ℕ → Dev × Option Bytes
  pub write_stores :
      (d : Dev) (a v : ℕ) → (blocking_write d a v).1 ≡ true → view (blocking_write d a v).0 a ≡ v
  pub write_keeps : (d : Dev) (a v x : ℕ) → x ≢ a → view (blocking_write d a v).0 x ≡ view d x
  pub read_gives :
      (d : Dev) (a n : ℕ) (buf : Bytes)
      → (blocking_write_read d a n).1 ≡ some buf
      → buf ≡ bytes_from (view d) a n
  pub read_keeps : (d : Dev) (a n x : ℕ) → view (blocking_write_read d a n).0 x ≡ view d x

-- `Mutex<Option<Eeprom>>`: whether it is held elsewhere, and the chip once it is registered.
pub record Cell (bus : Bus) : Type 0 where
  pub held : Bool
  pub chip : Option bus.Dev

module _ (bus : Bus) where
  -- `Eeprom::read`
  unfoldable pub read : bus.Dev → ℕ → ℕ → bus.Dev × Option Bytes
  read d addr n = bus.blocking_write_read d addr n

  -- The loop of `write_bytes` from index `i` on; `?` leaves it at the first error.
  unfoldable pub write_loop : bus.Dev → ℕ → ℕ → Bytes → bus.Dev × Bool
  write_loop d start i [] = (d, true)
  write_loop d start i (byte ∷ rest) =
      let mem_addr = (start + i % 256) % 256 in
      let sent = bus.blocking_write d mem_addr byte in
      let later = write_loop sent.0 start (i + 1) rest in if sent.1 then later else (sent.0, false)

  unfoldable pub write_bytes : bus.Dev → ℕ → Bytes → bus.Dev × Bool
  unfolding write_loop
  write_bytes d start_addr bytes = write_loop d start_addr 0 bytes

  read_chip : Cell bus → Option bus.Dev → ℕ → ℕ → Cell bus × Option Bytes
  unfolding read
  read_chip cell none addr n = (cell, none)
  read_chip cell (some d) addr n =
      (record cell { chip = some (read d addr n).0 }, (read d addr n).1)

  -- `try_lock().ok().and_then(|g| g.as_mut().and_then(|ee| ee.read(..).ok()))`
  unfoldable pub try_read : Cell bus → ℕ → ℕ → Cell bus × Option Bytes
  unfolding read_chip
  try_read cell addr n = if cell.held then (cell, none) else read_chip cell cell.chip addr n

  -- `init_global`
  abbrev pub init_global : bus.Dev → Cell bus
  init_global d = record { held = false; chip = some d }
