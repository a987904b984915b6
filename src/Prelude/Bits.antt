-- ===== src/Prelude/Bits.antt =====
-- Facts about bit operations on bytes, each checked at every value of a small range.
use Prim.Native.Nat.{ℕ, zero, suc, ◌+◌, ◌*◌, ◌%◌, ◌<◌, bit_and, bit_or}
use mathlib.Core.Path.{◌≡◌, refl}
use mathlib.Core.Bool.{Bool, true, ◌&&◌}
use native.Mathlib.Omega.{arith}
use jzf407_rust.Prelude.Tests.{◌==◌, ==_iff}

unfoldable pub all_below : ℕ → (ℕ → Bool) → Bool
all_below zero test = true
all_below (suc top) test = all_below top test && test top

pub all_below_sound :
    (top : ℕ) (test : ℕ → Bool) (x : ℕ) → all_below top test ≡ true → x < top → test x ≡ true
unfolding all_below
all_below_sound (suc top) test x checked below = ground (arith, all_below_sound top test x)
all_below_sound zero test x checked below = absurd (omega arith)

-- Two numbers, each in a small range of its own.
pub all_below₂_sound :
    (n m : ℕ) (p : ℕ → ℕ → Bool) (x y : ℕ)
    → all_below n (λ a. all_below m (p a)) ≡ true
    → x < n
    → y < m
    → p x y ≡ true
all_below₂_sound n m p x y h hx hy =
    all_below_sound m (p x) y (all_below_sound n (λ a. all_below m (p a)) x h hx) hy

and_15_table : all_below 256 (λ x. bit_and x 15 == x % 16) ≡ true
unfolding all_below
and_15_table = refl

pub bit_and_15 : (x : ℕ) → x < 256 → bit_and x 15 ≡ x % 16
bit_and_15 x h = (==_iff _ _).0 (all_below_sound 256 _ x and_15_table h)

and_3_table : all_below 256 (λ x. bit_and x 3 == x % 4) ≡ true
unfolding all_below
and_3_table = refl

pub bit_and_3 : (x : ℕ) → x < 256 → bit_and x 3 ≡ x % 4
bit_and_3 x h = (==_iff _ _).0 (all_below_sound 256 _ x and_3_table h)

and_63_table : all_below 256 (λ x. bit_and x 63 == x % 64) ≡ true
unfolding all_below
and_63_table = refl

pub bit_and_63 : (x : ℕ) → x < 256 → bit_and x 63 ≡ x % 64
bit_and_63 x h = (==_iff _ _).0 (all_below_sound 256 _ x and_63_table h)

or_16_table : all_below 16 (λ x. all_below 16 (λ y. bit_or (x * 16) y == x * 16 + y)) ≡ true
unfolding all_below
or_16_table = refl

pub bit_or_16 : (x y : ℕ) → x < 16 → y < 16 → bit_or (x * 16) y ≡ x * 16 + y
bit_or_16 x y hx hy =
    (==_iff _ _).0
      (all_below₂_sound 16 16 (λ a b. bit_or (a * 16) b == a * 16 + b) x y or_16_table hx hy)

or_4_table : all_below 16 (λ x. all_below 4 (λ y. bit_or (x * 4) y == x * 4 + y)) ≡ true
unfolding all_below
or_4_table = refl

pub bit_or_4 : (x y : ℕ) → x < 16 → y < 4 → bit_or (x * 4) y ≡ x * 4 + y
bit_or_4 x y hx hy =
    (==_iff _ _).0
      (all_below₂_sound 16 4 (λ a b. bit_or (a * 4) b == a * 4 + b) x y or_4_table hx hy)

or_1_table :
    all_below 256 (λ x. all_below 2 (λ y. bit_or (x * 2 % 256) y == x * 2 % 256 + y)) ≡ true
unfolding all_below
or_1_table = refl

-- The shift of a byte by one place, with the new bit put in.
pub bit_or_shifted : (x y : ℕ) → x < 256 → y < 2 → bit_or (x * 2 % 256) y ≡ x * 2 % 256 + y
bit_or_shifted x y hx hy =
    (==_iff _ _).0 (
      all_below₂_sound 256 2 (λ a b. bit_or (a * 2 % 256) b == a * 2 % 256 + b) x y or_1_table hx
        hy)

or_256_table : all_below 256 (λ x. all_below 256 (λ y. bit_or (x * 256) y == x * 256 + y)) ≡ true
unfolding all_below
or_256_table = refl

pub bit_or_256 : (x y : ℕ) → x < 256 → y < 256 → bit_or (x * 256) y ≡ x * 256 + y
bit_or_256 x y hx hy =
    (==_iff _ _).0
      (all_below₂_sound 256 256 (λ a b. bit_or (a * 256) b == a * 256 + b) x y or_256_table hx hy)
