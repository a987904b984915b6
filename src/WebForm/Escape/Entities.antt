-- ===== src/WebForm/Escape/Entities.antt =====
-- An independent description of the entities of an attribute, and that an escaped text is read back.
use jzf407_rust.Prelude.{
  ℕ, zero, suc, ◌≡◌, ◌≢◌, ◌≤◌, refl, ap, ◌∙◌, inl, inr, Bool, true, List, [], ◌∷◌, ◌++◌, Bytes, All,
  bytes_eq, is_some, arith, Bool-cases, ◌==◌, if◌then◌else◌,
}
use jzf407_rust.Text.{codes}
use jzf407_rust.Text.Utf8.{valid_utf8, chars, concat, concat-chars, chars-IsChar, IsChar}
use jzf407_rust.Text.Split.{strip_prefix}
use jzf407_rust.WebForm.{escape_char}
use jzf407_rust.WebForm.Escape.{escaped_chars, escaped}

abbrev pub starts : Bytes → Bytes → Bool
starts p s = is_some (strip_prefix p s)

-- What an entity at the front stands for, and how many bytes it has behind the first.
unfoldable pub entity : Bytes → ℕ × ℕ
entity [] = (0, 0)
entity (b ∷ s) =
    if starts (codes "&amp;") (b ∷ s)
    then (b'&', 4)
    else (if starts (codes "&lt;") (b ∷ s)
        then (b'<', 3)
        else (if starts (codes "&gt;") (b ∷ s)
            then (b'>', 3)
            else (if starts (codes "&quot;") (b ∷ s)
                then (b'"', 5)
                else (if starts (codes "&#39;") (b ∷ s) then (b'\'', 4) else (b, 0)))))

-- The text behind `skip` bytes, with its entities replaced.
unfoldable pub unescape_from : ℕ → Bytes → Bytes
unescape_from skip [] = []
unescape_from (suc skip) (b ∷ s) = unescape_from skip s
unescape_from zero (b ∷ s) = let here = entity (b ∷ s) in here.0 ∷ unescape_from here.1 s

unfoldable pub unescape : Bytes → Bytes
unfolding unescape_from
unescape s = unescape_from 0 s

entity_other : (b : ℕ) (s : Bytes) → b ≢ b'&' → entity (b ∷ s) ≡ (b, 0)
unfolding entity strip_prefix
entity_other b s h = ground arith

unescape_other : (b : ℕ) (s : Bytes) → b ≢ b'&' → unescape_from 0 (b ∷ s) ≡ b ∷ unescape_from 0 s
unfolding unescape_from
unescape_other b s h = rw (entity_other b s h)

unescape_high :
    (g s : Bytes) → All (λ b. 0x80 ≤ b) g → unescape_from 0 (g ++ s) ≡ g ++ unescape_from 0 s
unescape_high [] s h = refl
unescape_high (b ∷ g) s h =
    unescape_other b (g ++ s) (omega (arith, h.0)) ∙ ap (◌∷◌ b) (unescape_high g s h.1)

escape_high : (g : Bytes) → All (λ b. 0x80 ≤ b) g → escape_char g ≡ g
unfolding escape_char bytes_eq
escape_high [] h = refl
escape_high (b ∷ g) h = ground arith

unescape_one :
    (b : ℕ) (s : Bytes) → unescape_from 0 (escape_char (b ∷ []) ++ s) ≡ b ∷ unescape_from 0 s
unfolding escape_char bytes_eq unescape_from entity strip_prefix
unescape_one b s = elim (Bool-cases (b == b'&')) [
  | inl e ↦ rw (same b'&' e) amp
  | inr e₀ ↦ elim (Bool-cases (b == b'<')) [
    | inl e ↦ rw (same b'<' e) lt
    | inr e₁ ↦ elim (Bool-cases (b == b'>')) [
      | inl e ↦ rw (same b'>' e) gt
      | inr e₂ ↦ elim (Bool-cases (b == b'"')) [
        | inl e ↦ rw (same b'"' e) quot
        | inr e₃ ↦ elim (Bool-cases (b == b'\'')) [
          | inl e ↦ rw (same b'\'' e) apos
          | inr e₄ ↦ rw (e₀, e₁, e₂, e₃, e₄) (unescape_other b s (ground arith))
        ]
      ]
    ]
  ]
]
  where
    same : (c : ℕ) → (b == c) ≡ true → b ≡ c
    same c e = ground arith

    amp : unescape_from 0 (codes "&amp;" ++ s) ≡ b'&' ∷ unescape_from 0 s
    amp = refl

    lt : unescape_from 0 (codes "&lt;" ++ s) ≡ b'<' ∷ unescape_from 0 s
    lt = refl

    gt : unescape_from 0 (codes "&gt;" ++ s) ≡ b'>' ∷ unescape_from 0 s
    gt = refl

    quot : unescape_from 0 (codes "&quot;" ++ s) ≡ b'"' ∷ unescape_from 0 s
    quot = refl

    apos : unescape_from 0 (codes "&#39;" ++ s) ≡ b'\'' ∷ unescape_from 0 s
    apos = refl

unescape-escape_char :
    (g s : Bytes) → IsChar g → unescape_from 0 (escape_char g ++ s) ≡ g ++ unescape_from 0 s
unescape-escape_char g s (inl (b, e, lt)) = rw e (unescape_one b s)
unescape-escape_char g s (inr high) = rw (escape_high g high) (unescape_high g s high)

unescape-escaped_chars :
    (gs : List Bytes) → All IsChar gs → unescape_from 0 (escaped_chars gs) ≡ concat gs
unfolding escaped_chars concat unescape_from
unescape-escaped_chars [] h = refl
unescape-escaped_chars (g ∷ gs) h =
    unescape-escape_char g (escaped_chars gs) h.0 ∙ ap (g ++◌) (unescape-escaped_chars gs h.1)

-- A valid text is what a browser reads in an attribute that holds its escaped form.
pub unescape-escaped : (s : Bytes) → valid_utf8 s ≡ true → unescape (escaped s) ≡ s
unfolding unescape escaped
unescape-escaped s h = unescape-escaped_chars (chars s) (chars-IsChar s h) ∙ concat-chars s

unescape_from-plain : (s : Bytes) → All (λ b. b ≢ b'&') s → unescape_from 0 s ≡ s
unfolding unescape_from
unescape_from-plain [] h = refl
unescape_from-plain (b ∷ s) h = rw (entity_other b s h.0, unescape_from-plain s h.1)

-- A text with no `&` stands for itself.
pub unescape_plain : (s : Bytes) → All (λ b. b ≢ b'&') s → unescape s ≡ s
unfolding unescape
unescape_plain s h = unescape_from-plain s h
