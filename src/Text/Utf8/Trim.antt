-- ===== src/Text/Utf8/Trim.antt =====
-- Texts that `str::trim` leaves as they are.
use jzf407_rust.Prelude.{ℕ, ◌≤◌, ◌<◌, ◌≡◌, refl, ap, ◌∙◌, false, List, [], ◌∷◌, Bytes, All, arith}
use jzf407_rust.Text.Utf8.{
  is_continuation, is_whitespace, chars, trim_front, keep_last, trim_back, trim, trim_start, concat,
  chars_low, concat-chars,
}

-- ASCII, and no blank nor control character.
abbrev pub Printable : Bytes → Type 0
Printable = All (λ b. (33 ≤ b) × (b < 0x80))

abbrev singles : Bytes → List Bytes
singles [] = []
singles (b ∷ s) = (b ∷ []) ∷ singles s

starts_low : (s : Bytes) → Printable s → (c : ℕ) (r : Bytes) → s ≡ c ∷ r → is_continuation c ≡ false
unfolding is_continuation
starts_low [] h c r e = cc
starts_low (x ∷ s) h c r e = ground arith

chars-singles : (s : Bytes) → Printable s → chars s ≡ singles s
unfolding chars
chars-singles [] h = refl
chars-singles (b ∷ s) h =
    chars_low b s (λ c r e. starts_low s h.1 c r e) ∙ ap (◌∷◌ (b ∷ [])) (chars-singles s h.1)

trim_back-singles : (s : Bytes) → Printable s → trim_back (singles s) ≡ singles s
unfolding trim_back keep_last is_whitespace
trim_back-singles [] h = refl
trim_back-singles (b ∷ []) h = ground arith
trim_back-singles (b ∷ c ∷ s) h = rw (trim_back-singles (c ∷ s) h.1)

trim_front-singles : (s : Bytes) → Printable s → trim_front (singles s) ≡ singles s
unfolding trim_front is_whitespace
trim_front-singles [] h = refl
trim_front-singles (b ∷ s) h = ground arith

pub trim-Printable : (s : Bytes) → Printable s → trim s ≡ s
unfolding trim
trim-Printable s h =
    rw (chars-singles s h, trim_front-singles s h, trim_back-singles s h, ← chars-singles s h)
      (concat-chars s)

-- A blank in front of such a text is dropped.
pub trim-blank : (s : Bytes) → Printable s → trim (b' ' ∷ s) ≡ s
unfolding trim trim_front is_whitespace concat
trim-blank s h =
    let front : chars (b' ' ∷ s) ≡ (b' ' ∷ []) ∷ chars s =
      chars_low b' ' s (λ c r e. starts_low s h c r e) in
    rw
      (front, chars-singles s h, trim_front-singles s h, trim_back-singles s h, ← chars-singles s h)
      (concat-chars s)

-- Such a text has no blank at its front.
pub trim_start-Printable : (s : Bytes) → Printable s → trim_start s ≡ s
unfolding trim_start
trim_start-Printable s h =
    rw (chars-singles s h, trim_front-singles s h, ← chars-singles s h) (concat-chars s)
