-- ===== src/Prelude/Slices.antt =====
-- Slices of a byte buffer: reading a range, and `copy_from_slice` into a range.
use Prim.Native.Nat.{ℕ, zero, suc, ◌-◌, ◌≤◌}
use mathlib.Core.Path.{◌≡◌, refl, ap}
use mathlib.Core.List.{[], ◌∷◌, ◌++◌}
use native.Mathlib.Omega.{arith}
use jzf407_rust.Prelude.Lists.{Bytes, length, take, drop, replicate}

-- `&b[lo..hi]`
abbrev pub slice : Bytes → ℕ → ℕ → Bytes
slice b lo hi = take (hi - lo) (drop lo b)

-- `src` written over the front of `b`; what does not fit is dropped.
abbrev pub overlay : Bytes → Bytes → Bytes
overlay [] src = []
overlay (x ∷ b) [] = x ∷ b
overlay (x ∷ b) (y ∷ src) = y ∷ overlay b src

-- `b[off..off + src.len()].copy_from_slice(src)`, for a range within `b`
abbrev pub copy_at : Bytes → ℕ → Bytes → Bytes
copy_at b zero src = overlay b src
copy_at [] (suc off) src = []
copy_at (x ∷ b) (suc off) src = x ∷ copy_at b off src

-- `s` in a field of `n` bytes, with zeros behind it
abbrev pub padded : ℕ → Bytes → Bytes
padded zero s = []
padded (suc n) [] = 0 ∷ padded n []
padded (suc n) (x ∷ s) = x ∷ padded n s

pub length-padded : (n : ℕ) (s : Bytes) → length (padded n s) ≡ n
length-padded zero s = refl
length-padded (suc n) [] = ap suc (length-padded n [])
length-padded (suc n) (x ∷ s) = ap suc (length-padded n s)

pub copy_at-append :
    (n : ℕ) (xs ys src : Bytes) → length xs ≡ n → copy_at (xs ++ ys) n src ≡ xs ++ overlay ys src
copy_at-append zero [] ys src e = refl
copy_at-append zero (x ∷ xs) ys src e = absurd (omega arith)
copy_at-append (suc n) [] ys src e = absurd (omega arith)
copy_at-append (suc n) (x ∷ xs) ys src e = ap (◌∷◌ x) (copy_at-append n xs ys src (omega arith))

padded-nil : (n : ℕ) → padded n [] ≡ replicate n 0
padded-nil zero = refl
padded-nil (suc n) = ap (◌∷◌ 0) (padded-nil n)

overlay-nil : (b : Bytes) → overlay b [] ≡ b
overlay-nil [] = refl
overlay-nil (x ∷ b) = refl

pub overlay-zeros :
    (n : ℕ) (s ys : Bytes) → length s ≤ n → overlay (replicate n 0 ++ ys) s ≡ padded n s ++ ys
overlay-zeros zero [] ys h = overlay-nil ys
overlay-zeros zero (x ∷ s) ys h = absurd (omega arith)
overlay-zeros (suc n) [] ys h = ap (λ (t : Bytes). 0 ∷ t ++ ys) (rw padded-nil refl)
overlay-zeros (suc n) (x ∷ s) ys h = ap (◌∷◌ x) (overlay-zeros n s ys (omega arith))
