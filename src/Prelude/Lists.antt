-- ===== src/Prelude/Lists.antt =====
-- Lists measured and indexed by native numbers, under the library's names.
use Prim.Native.Nat.{ℕ, zero, suc, ◌+◌, ◌≤◌, ◌<◌}
use mathlib.Core.Path.{◌≡◌, refl, ap}
use mathlib.Core.List.{List, [], ◌∷◌, ◌++◌}
use mathlib.Core.Bool.{Bool, true, false, ◌&&◌, ◌||◌}
use mathlib.Core.Logic.{◌↔◌}
use native.Mathlib.Omega.{arith}
use jzf407_rust.Prelude.Tests.{◌==◌}

-- A slice of bytes, and a text by its UTF-8 bytes.
abbrev pub Bytes : Type 0
Bytes = List ℕ

module _ {ℓ} {A : Type ℓ} where
  abbrev pub length : List A → ℕ
  length [] = 0
  length (x ∷ xs) = suc (length xs)

  abbrev pub get_or : List A → ℕ → A → A
  get_or [] i d = d
  get_or (x ∷ xs) zero d = x
  get_or (x ∷ xs) (suc i) d = get_or xs i d

  abbrev pub take : ℕ → List A → List A
  take zero xs = []
  take (suc n) [] = []
  take (suc n) (x ∷ xs) = x ∷ take n xs

  abbrev pub drop : ℕ → List A → List A
  drop zero xs = xs
  drop (suc n) [] = []
  drop (suc n) (x ∷ xs) = drop n xs

  abbrev pub replicate : ℕ → A → List A
  replicate zero a = []
  replicate (suc n) a = a ∷ replicate n a

  pub length-append : (xs ys : List A) → length (xs ++ ys) ≡ length xs + length ys
  length-append [] ys = omega arith
  length-append (x ∷ xs) ys = omega (arith, length-append xs ys)

  pub length-replicate : (n : ℕ) (a : A) → length (replicate n a) ≡ n
  length-replicate zero a = refl
  length-replicate (suc n) a = ap suc (length-replicate n a)

  pub take-append_length : (n : ℕ) (xs ys : List A) → length xs ≡ n → take n (xs ++ ys) ≡ xs
  take-append_length zero [] ys e = refl
  take-append_length zero (x ∷ xs) ys e = absurd (omega arith)
  take-append_length (suc n) [] ys e = absurd (omega arith)
  take-append_length (suc n) (x ∷ xs) ys e = ap (◌∷◌ x) (take-append_length n xs ys (omega arith))

  pub take_all : (n : ℕ) (xs : List A) → length xs ≤ n → take n xs ≡ xs
  take_all zero [] h = refl
  take_all zero (x ∷ xs) h = absurd (omega arith)
  take_all (suc n) [] h = refl
  take_all (suc n) (x ∷ xs) h = ap (◌∷◌ x) (take_all n xs (omega arith))

-- A predicate of every element.
abbrev pub All {ℓ ℓ'} : {A : Type ℓ} → (A → Type ℓ') → List A → Type ℓ'
All holds (first ∷ others) = holds first × All holds others
All holds [] = Unit

-- Every element is a byte.
abbrev pub AreBytes : Bytes → Type 0
AreBytes = All (λ x. x < 256)

pub cons_eq {ℓ} :
    {A : Type ℓ} {x y : A} {xs ys : List A} → x ≡ y → xs ≡ ys → ◌≡◌ {A = List A} (x ∷ xs) (y ∷ ys)
cons_eq p q = cc

pub All-append {ℓ ℓ'} :
    {A : Type ℓ} (holds : A → Type ℓ') (left right : List A)
    → All holds left
    → All holds right
    → All holds (left ++ right)
All-append holds (first ∷ others) right l r = (l.0, All-append holds others right l.1 r)
All-append holds [] right l r = r

-- A predicate that follows from another, element by element.
pub All-map {ℓ ℓ' ℓ''} :
    {A : Type ℓ} (holds : A → Type ℓ') (also : A → Type ℓ'') (follows : (x : A) → holds x → also x)
    (xs : List A)
    → All holds xs
    → All also xs
All-map holds also follows [] h = tt
All-map holds also follows (x ∷ xs) h = (follows x h.0, All-map holds also follows xs h.1)

-- `slice.contains(&b)`
unfoldable pub contains : ℕ → Bytes → Bool
contains b [] = false
contains b (x ∷ xs) = x == b || contains b xs

-- `==` on slices and texts
unfoldable pub bytes_eq : Bytes → Bytes → Bool
bytes_eq [] [] = true
bytes_eq [] (y ∷ ys) = false
bytes_eq (x ∷ xs) [] = false
bytes_eq (x ∷ xs) (y ∷ ys) = x == y && bytes_eq xs ys

pub bytes_eq_iff : (xs ys : Bytes) → (bytes_eq xs ys ≡ true) ↔ (xs ≡ ys)
unfolding bytes_eq
bytes_eq_iff [] [] = ground arith
bytes_eq_iff [] (y ∷ ys) = ground arith
bytes_eq_iff (x ∷ xs) [] = ground arith
bytes_eq_iff (x ∷ xs) (y ∷ ys) = ground (arith, bytes_eq_iff xs ys)
