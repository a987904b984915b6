-- ===== src/Text/Decimal.antt =====
-- `str::parse` into an unsigned integer of a given maximum, and its printed form.
use jzf407_rust.Text.Split.{Avoids}
use jzf407_rust.Prelude.{
  All-map, ◌⊎◌, ◌≢◌, ℕ, zero, suc, ◌+◌, ◌-◌, ◌*◌, ◌/◌, ◌%◌, ◌^◌, ◌≤◌, ◌<◌, ◌≡◌, refl, ap, ◌∙◌, inl,
  inr, Bool, ◌&&◌, Option, length, length-append, none, some, [], ◌∷◌, ◌++◌, Bytes, All, true,
  All-append, leb, ltb, ◌==◌, if◌then◌else◌, arith, ◌>>=◌, >>=-eq-some, Bool-cases, Option-cases,
}
use native.Mathlib.Nat.{pow-suc}

is_digit : ℕ → Bool
is_digit c = leb b'0' c && leb c b'9'

-- One more digit: refused when it is none, or when the number grows above `max`.
push_digit : ℕ → ℕ → ℕ → Option ℕ
unfolding is_digit
push_digit max acc c =
    if is_digit c
    then (if leb (acc * 10 + (c - b'0')) max then some (acc * 10 + (c - b'0')) else none)
    else none

parse_digits : ℕ → ℕ → Bytes → Option ℕ
parse_digits max acc [] = some acc
parse_digits max acc (c ∷ rest) = do acc' ← push_digit max acc c; parse_digits max acc' rest

-- `s.parse::<uN>().ok()` with `max` the type's greatest value: a `+` may stand in front.
unfoldable pub parse_uint : ℕ → Bytes → Option ℕ
unfolding parse_digits push_digit
parse_uint max [] = none
parse_uint max (c ∷ []) = parse_digits max 0 (c ∷ [])
parse_uint max (c ∷ d ∷ rest) =
    if c == b'+' then parse_digits max 0 (d ∷ rest) else parse_digits max 0 (c ∷ d ∷ rest)

decimal_loop : ℕ → ℕ → Bytes
decimal_loop zero n = []
decimal_loop (suc fuel) n =
    let front = decimal_loop fuel (n / 10) in
    if ltb n 10 then (b'0' + n) ∷ [] else front ++ (b'0' + n % 10) ∷ []

-- `format!("{}", n)`; a number has at most n + 1 digits.
unfoldable pub to_decimal : ℕ → Bytes
unfolding decimal_loop
to_decimal n = decimal_loop (suc n) n

parse_digits-append :
    (max acc : ℕ) (xs ys : Bytes)
    → parse_digits max acc (xs ++ ys) ≡ (parse_digits max acc xs >>= λ a. parse_digits max a ys)
unfolding parse_digits
parse_digits-append max acc [] ys = refl
parse_digits-append max acc (c ∷ xs) ys = elim (Option-cases (push_digit max acc c)) [
  | inl e ↦ rw e
  | inr (a, e) ↦ rw e (parse_digits-append max a xs ys)
]

push_digit_digit :
    (max acc d : ℕ)
    → d < 10
    → acc * 10 + d ≤ max
    → push_digit max acc (b'0' + d) ≡ some (acc * 10 + d)
unfolding push_digit
push_digit_digit max acc d h k = ground arith

parse-decimal_loop :
    (max fuel n : ℕ) → n < fuel → n ≤ max → parse_digits max 0 (decimal_loop fuel n) ≡ some n
unfolding parse_digits decimal_loop
parse-decimal_loop max zero n h k = absurd (omega arith)
parse-decimal_loop max (suc fuel) n h k = elim (Bool-cases (ltb n 10)) [
  | inl e ↦
      rw e (rw (push_digit_digit max 0 n (ground arith) (omega arith)) (ap some (omega arith)))
  | inr e ↦ rw e (
      rw (parse_digits-append max 0 (decimal_loop fuel (n / 10))) (
        rw (parse-decimal_loop max fuel (n / 10) (ground arith) (omega arith)) (
          rw (push_digit_digit max (n / 10) (n % 10) (omega arith) (omega arith))
            (ap some (omega arith)))))
]

-- All bytes are digits.
abbrev pub Digits : Bytes → Type 0
Digits = All (λ c. (b'0' ≤ c) × (c ≤ b'9'))

decimal_loop-Digits : (fuel n : ℕ) → Digits (decimal_loop fuel n)
unfolding decimal_loop
decimal_loop-Digits zero n = tt
decimal_loop-Digits (suc fuel) n = elim (Bool-cases (ltb n 10)) [
  | inl e ↦ rw e ((omega arith, ground arith), tt)
  | inr e ↦ rw e (
      All-append _ (decimal_loop fuel (n / 10)) _ (decimal_loop-Digits fuel (n / 10))
        ((omega arith, omega arith), tt))
]

decimal_loop_nonempty :
    (fuel n : ℕ) → n < fuel → (c : ℕ) × (rest : Bytes) × (decimal_loop fuel n ≡ c ∷ rest)
unfolding decimal_loop
decimal_loop_nonempty zero n h = absurd (omega arith)
decimal_loop_nonempty (suc fuel) n h = elim (Bool-cases (ltb n 10)) [
  | inl e ↦ (b'0' + n, [], rw e)
  | inr e ↦
      let (c, rest, e') = decimal_loop_nonempty fuel (n / 10) (ground arith) in
      (c, rest ++ (b'0' + n % 10) ∷ [], rw (e, e'))
]

pub to_decimal-Digits : (n : ℕ) → Digits (to_decimal n)
unfolding to_decimal
to_decimal-Digits n = decimal_loop-Digits (suc n) n

parse_uint-Digits :
    (max : ℕ) (s : Bytes) (c : ℕ) (rest : Bytes)
    → s ≡ c ∷ rest
    → Digits s
    → parse_uint max s ≡ parse_digits max 0 s
unfolding parse_uint
parse_uint-Digits max [] c rest e d = cc
parse_uint-Digits max (x ∷ []) c rest e d = refl
parse_uint-Digits max (x ∷ y ∷ s) c rest e d = elim (Bool-cases (x == b'+')) [
  | inl p ↦ absurd (ground arith)
  | inr p ↦ rw p
]

-- Every number up to the type's maximum is read back from its printed form.
pub parse_uint-to_decimal : (max n : ℕ) → n ≤ max → parse_uint max (to_decimal n) ≡ some n
unfolding to_decimal
parse_uint-to_decimal max n h =
    let (c, rest, e) = decimal_loop_nonempty (suc n) n (omega arith) in
    parse_uint-Digits max (decimal_loop (suc n) n) c rest e (decimal_loop-Digits (suc n) n)
    ∙ parse-decimal_loop max (suc n) n (omega arith) h

push_digit-le : (max acc c v : ℕ) → push_digit max acc c ≡ some v → v ≤ max
unfolding push_digit
push_digit-le max acc c v h = ground arith

parse_digits-le :
    (max acc : ℕ) (s : Bytes) (v : ℕ) → acc ≤ max → parse_digits max acc s ≡ some v → v ≤ max
unfolding parse_digits
parse_digits-le max acc [] v h e = ground arith
parse_digits-le max acc (c ∷ rest) v h e =
    let (a, p, later) = >>=-eq-some (push_digit max acc c) (λ a. parse_digits max a rest) e in
    parse_digits-le max a rest v (push_digit-le max acc c a p) later

-- Whatever is parsed fits the type.
pub parse_uint-le : (max : ℕ) (s : Bytes) (v : ℕ) → parse_uint max s ≡ some v → v ≤ max
unfolding parse_uint
parse_uint-le max [] v e = cc
parse_uint-le max (c ∷ []) v e = parse_digits-le max 0 (c ∷ []) v (omega arith) e
parse_uint-le max (c ∷ d ∷ rest) v e = elim (Bool-cases (c == b'+')) [
  | inl p ↦ parse_digits-le max 0 (d ∷ rest) v (omega arith) (rw (p, parse_uint) at e)
  | inr p ↦ parse_digits-le max 0 (c ∷ d ∷ rest) v (omega arith) (rw (p, parse_uint) at e)
]

decimal_loop_short :
    (fuel n k : ℕ) → n < fuel → n < 10 ^ suc k → length (decimal_loop fuel n) ≤ suc k
unfolding decimal_loop
decimal_loop_short zero n k h b = absurd (omega arith)
decimal_loop_short (suc fuel) n zero h b =
    let one : ltb n 10 ≡ true = ground arith in rw one (omega arith)
decimal_loop_short (suc fuel) n (suc k) h b = elim (Bool-cases (ltb n 10)) [
  | inl e ↦ rw e (omega arith)
  | inr e ↦
      let shorter =
        decimal_loop_short fuel (n / 10) k (ground arith) (omega (arith, pow-suc 10 (suc k))) in
      rw e (omega (arith, length-append (decimal_loop fuel (n / 10)) ((b'0' + n % 10) ∷ [])))
]

-- A number below a power of ten has at most that many digits.
pub length-to_decimal : (k n : ℕ) → n < 10 ^ suc k → length (to_decimal n) ≤ suc k
unfolding to_decimal
length-to_decimal k n h = decimal_loop_short (suc n) n k (omega arith) h

-- No digit is the separator.
pub Digits-Avoids : (sep : ℕ) (s : Bytes) → (sep < b'0') ⊎ (b'9' < sep) → Digits s → Avoids sep s
Digits-Avoids sep s far h =
    All-map (λ c. (b'0' ≤ c) × (c ≤ b'9')) (λ c. c ≢ sep) (λ c k e. omega (arith, k, far)) s h
