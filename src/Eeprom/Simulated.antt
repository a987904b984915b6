-- ===== src/Eeprom/Simulated.antt =====
-- A chip to run the code on: its bytes, and the answers that its next transactions will give.
use jzf407_rust.Prelude.{
  ℕ, ◌+◌, ◌%◌, ap, ◌≡◌, ◌≢◌, refl, Bool, true, Option, none, some, List, [], ◌∷◌, Bytes, ◌==◌,
  if◌then◌else◌, arith,
}
use jzf407_rust.Eeprom.{Bus, bytes_from, write_loop, write_bytes}

pub record Chip : Type 0 where
  pub memory : ℕ → ℕ
  -- `true` for each transaction that the bus completes; past the end all are completed.
  pub replies : List Bool

abbrev pub poke : (ℕ → ℕ) → ℕ → ℕ → ℕ → ℕ
poke mem a v x = if x == a then v else mem x

abbrev reply : List Bool → Bool
reply [] = true
reply (r ∷ rs) = r

abbrev later : List Bool → List Bool
later [] = []
later (r ∷ rs) = rs

abbrev write_chip : Chip → ℕ → ℕ → Chip × Bool
write_chip c a v = (
  record {
    memory = if reply c.replies then poke c.memory a v else c.memory;
    replies = later c.replies;
  },
  reply c.replies,
)

abbrev read_chip : Chip → ℕ → ℕ → Chip × Option Bytes
read_chip c a n = (
  record c { replies = later c.replies },
  if reply c.replies then some (bytes_from c.memory a n) else none,
)

pub write_chip-stores :
    (c : Chip) (a v : ℕ) → (write_chip c a v).1 ≡ true → (write_chip c a v).0.memory a ≡ v
write_chip-stores c a v h = ground arith

pub write_chip-keeps : (c : Chip) (a v x : ℕ) → x ≢ a → (write_chip c a v).0.memory x ≡ c.memory x
write_chip-keeps c a v x h = ground arith

pub read_chip-gives :
    (c : Chip) (a n : ℕ) (buf : Bytes)
    → (read_chip c a n).1 ≡ some buf
    → buf ≡ bytes_from c.memory a n
read_chip-gives c a n buf h = ground arith

abbrev pub simulated : Bus
simulated = record {
  Dev = Chip;
  view = λ c. c.memory;
  blocking_write = write_chip;
  blocking_write_read = read_chip;
  write_stores = write_chip-stores;
  write_keeps = write_chip-keeps;
  read_gives = read_chip-gives;
  read_keeps = λ c a n x. refl;
}

-- A blank chip on a bus that answers as listed.
abbrev pub blank : List Bool → Chip
blank replies = record { memory = λ a. 0xff; replies = replies }

-- With no answers listed the bus never fails, and no write changes that.
loop_willing :
    (c : Chip) (start i : ℕ) (bytes : Bytes)
    → c.replies ≡ []
    → (write_loop simulated c start i bytes).0.replies ≡ []
unfolding write_loop
loop_willing c start i [] h = h
loop_willing c start i (b ∷ rest) h =
    let sent = write_chip c ((start + i % 256) % 256) b in
    let ih = loop_willing sent.0 start (i + 1) rest (ap later h) in
    rw (ap reply h) (rw (ap reply h) at ih)

pub write_bytes_willing :
    (start : ℕ) (bytes : Bytes) → (write_bytes simulated (blank []) start bytes).0.replies ≡ []
unfolding write_bytes
write_bytes_willing start bytes = loop_willing (blank []) start 0 bytes refl
