-- ===== src/Prelude/Tests.antt =====
-- Boolean tests on the native numbers, the conditional, and splits that keep an equation.
use Prim.Native.Nat.{ℕ, ◌≤◌, compare, Ordering}
use mathlib.Core.Path.{◌≡◌, refl}
use mathlib.Core.Logic.{◌≢◌, ◌↔◌, ◌⊎◌, inl, inr}
use mathlib.Core.Bool.{Bool, true, false}
use mathlib.Core.Option.{Option, none, some}
use native.Mathlib.Omega.{arith}

abbrev pub ltb : ℕ → ℕ → Bool
ltb a b = elim (compare a b) [ Ordering.lt ↦ true | _ ↦ false ]

abbrev pub leb : ℕ → ℕ → Bool
leb a b = elim (compare a b) [ Ordering.gt ↦ false | _ ↦ true ]

infix 50 ◌==◌
abbrev pub ◌==◌ : ℕ → ℕ → Bool
a == b = elim (compare a b) [ Ordering.eq ↦ true | _ ↦ false ]

infix 1 if◌then◌else◌
abbrev pub if◌then◌else◌ {ℓ} : {A : Type ℓ} → Bool → A → A → A
if true then x else y = x
if false then x else y = y

pub ==_iff : (a b : ℕ) → ((a == b) ≡ true) ↔ (a ≡ b)
==_iff a b = ground arith

pub ne→==-false : (a b : ℕ) → a ≢ b → (a == b) ≡ false
ne→==-false a b h = ground arith

pub leb→le : (a b : ℕ) → leb a b ≡ true → a ≤ b
leb→le a b h = ground arith

pub le→leb : (a b : ℕ) → a ≤ b → leb a b ≡ true
le→leb a b h = ground arith

pub Bool-cases : (b : Bool) → (b ≡ true) ⊎ (b ≡ false)
Bool-cases true = inl refl
Bool-cases false = inr refl

pub Option-cases {ℓ} : {A : Type ℓ} (o : Option A) → (o ≡ none) ⊎ ((a : A) × (o ≡ some a))
Option-cases none = inl refl
Option-cases (some a) = inr (a, refl)

pub some_inj {ℓ} : {A : Type ℓ} {a b : A} → some a ≡ some b → a ≡ b
some_inj h = cc

-- `?` on an option: the chain stops at the first `none`.
infixl 5 ◌>>=◌
abbrev pub ◌>>=◌ {ℓ ℓ'} : {X : Type ℓ} {Y : Type ℓ'} → Option X → (X → Option Y) → Option Y
some x >>= next = next x
none >>= next = none

-- `if !b { return None; }`
infixl 5 ◌>>◌
abbrev pub ◌>>◌ {ℓ} : {Y : Type ℓ} → Option (Unit {0}) → Option Y → Option Y
done >> next = done >>= λ _. next

abbrev pub guard : Bool → Option (Unit {0})
guard true = some tt
guard false = none

-- `opt.unwrap_or(d)`
abbrev pub unwrap_or {ℓ} : {A : Type ℓ} → Option A → A → A
unwrap_or none d = d
unwrap_or (some a) d = a

abbrev pub is_some {ℓ} : {A : Type ℓ} → Option A → Bool
is_some none = false
is_some (some a) = true

pub >>=-eq-some {ℓ ℓ'} :
    {X : Type ℓ} {Y : Type ℓ'} (first : Option X) (next : X → Option Y) {y : Y}
    → (first >>= next) ≡ some y
    → (x : X) × (first ≡ some x) × (next x ≡ some y)
>>=-eq-some (some x) next e = (x, refl, e)
>>=-eq-some none next e = cc

pub guard-eq-some : (b : Bool) {u : Unit {0}} → guard b ≡ some u → b ≡ true
guard-eq-some true h = refl
guard-eq-some false h = cc
