-- ===== src/Prelude/Halves.antt =====
-- `(high << k) | low` is a sum, at every width.
use Prim.Native.Nat.{
  ℕ, zero, suc, ◌+◌, ◌*◌, ◌/◌, ◌%◌, ◌^◌, ◌≤◌, ◌<◌, max, digits, bit_or, bit_or-bitwise,
}
use native.Mathlib.Nat.{pow-suc}
use native.Mathlib.Omega.{arith}
use mathlib.Core.Path.{◌≡◌, refl, ap}

abbrev same : ℕ → ℕ
same b = b

-- Any amount of fuel above the first number gives the same digits.
enough : (k l a b : ℕ) → a ≤ k → a ≤ l → digits same max k a b ≡ digits same max l a b
enough zero zero a b h h' = refl
enough (suc k) (suc l) (suc a) b h h' =
    rw (enough k l (suc a / 2) (b / 2) (omega arith) (omega arith))
enough (suc k) (suc l) zero b h h' = refl
enough zero (suc l) (suc a) b h h' = absurd (omega arith)
enough (suc k) zero (suc a) b h h' = absurd (omega arith)
enough zero (suc l) zero b h h' = refl
enough (suc k) zero zero b h h' = refl

lowest_digit : (a b : ℕ) → bit_or a b ≡ 2 * bit_or (a / 2) (b / 2) + max (a % 2) (b % 2)
lowest_digit (suc a) b =
    simp bit_or-bitwise
      (omega (arith, enough a (suc a / 2) (suc a / 2) (b / 2) (omega arith) (omega arith)))
lowest_digit zero b = simp bit_or-bitwise (omega arith)

nothing_added : (fuel a : ℕ) → a < fuel → bit_or a 0 ≡ a
nothing_added zero a h = absurd (omega arith)
nothing_added (suc fuel) zero h = refl
nothing_added (suc fuel) (suc a) h =
    omega (arith, lowest_digit (suc a) 0, nothing_added fuel (suc a / 2) (omega arith))

pub bit_or_halves : (k high low : ℕ) → low < 2 ^ k → bit_or (high * 2 ^ k) low ≡ high * 2 ^ k + low
bit_or_halves zero high low h = ground (arith, nothing_added (suc high) high (omega arith))
bit_or_halves (suc k) high low h =
    let twice : high * 2 ^ suc k ≡ 2 * (high * 2 ^ k) =
      omega (arith, ap (λ (t : ℕ). high * t) (pow-suc 2 k)) in
    ground (
      arith,
      lowest_digit (high * 2 ^ suc k) low,
      twice,
      bit_or_halves k high (low / 2) (omega arith),
    )
