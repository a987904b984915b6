-- ===== src/Text/Utf8.antt =====
-- `core::str::from_utf8`, `str::chars` and `str::trim`.
pub mod Trim
pub mod Range
use jzf407_rust.Prelude.{
  ℕ, zero, suc, ◌≤◌, ◌<◌, ◌≡◌, refl, sym, ap, ◌∙◌, ◌⊎◌, inl, inr, Bool, true, false, ◌&&◌, ◌||◌,
  Option, none, some, List, [], ◌∷◌, ◌++◌, Bytes, All, leb, ◌==◌, if◌then◌else◌, arith, length,
  contains, Bool-cases, Option-cases, is_some,
}

abbrev within : ℕ → ℕ → ℕ → Bool
within lo hi b = leb lo b && leb b hi

-- How many continuation bytes a first byte asks for, and the range of the next of them.
lead : ℕ → Option (ℕ × ℕ × ℕ)
lead b =
    if leb b 0x7f
    then some (0, 0x80, 0xbf)
    else if within 0xc2 0xdf b
    then some (1, 0x80, 0xbf)
    else if b == 0xe0
    then some (2, 0xa0, 0xbf)
    else if b == 0xed
    then some (2, 0x80, 0x9f)
    else if within 0xe1 0xef b
    then some (2, 0x80, 0xbf)
    else if b == 0xf0
    then some (3, 0x90, 0xbf)
    else if within 0xf1 0xf3 b
    then some (3, 0x80, 0xbf)
    else if b == 0xf4
    then some (3, 0x80, 0x8f)
    else none

-- The bytes are well formed, `need` continuation bytes being due first.
utf8 : ℕ → ℕ → ℕ → Bytes → Bool
utf8 zero lo hi [] = true
utf8 (suc need) lo hi [] = false
utf8 zero lo hi (b ∷ rest) = elim (lead b) [
  | none ↦ false
  | some (need, lo', hi') ↦ utf8 need lo' hi' rest
]
utf8 (suc need) lo hi (b ∷ rest) = within lo hi b && utf8 need 0x80 0xbf rest

unfoldable pub valid_utf8 : Bytes → Bool
unfolding utf8 lead
valid_utf8 = utf8 0 0x80 0xbf

abbrev pub from_utf8 : Bytes → Option Bytes
from_utf8 b = if valid_utf8 b then some b else none

unfoldable pub is_continuation : ℕ → Bool
is_continuation = within 0x80 0xbf

-- A byte put in front of the characters of what follows it.
attach : ℕ → Bytes → List Bytes → List Bytes
attach b (c ∷ rest) (g ∷ gs) = if is_continuation c then (b ∷ g) ∷ gs else (b ∷ []) ∷ g ∷ gs
attach b _ gs = (b ∷ []) ∷ gs

-- The characters of a text, each as its bytes.
unfoldable pub chars : Bytes → List Bytes
unfolding attach is_continuation
chars [] = []
chars (b ∷ rest) = attach b rest (chars rest)

unfoldable pub concat : List Bytes → Bytes
concat [] = []
concat (g ∷ gs) = g ++ concat gs

-- `char::is_whitespace`: the White_Space characters of Unicode, by their bytes.
unfoldable pub is_whitespace : Bytes → Bool
is_whitespace (b ∷ []) = within 9 13 b || b == 32
is_whitespace (b ∷ c ∷ []) = b == 0xc2 && (c == 0x85 || c == 0xa0)
is_whitespace (b ∷ c ∷ d ∷ []) =
    (b == 0xe1 && c == 0x9a && d == 0x80)
    || (b == 0xe2 && c == 0x80 && (within 0x80 0x8a d || within 0xa8 0xa9 d || d == 0xaf))
    || (b == 0xe2 && c == 0x81 && d == 0x9f)
    || (b == 0xe3 && c == 0x80 && d == 0x80)
is_whitespace _ = false

trim_front : List Bytes → List Bytes
trim_front [] = []
trim_front (g ∷ gs) = let rest = trim_front gs in if is_whitespace g then rest else g ∷ gs

-- A character in front of what is left of the rest: dropped if it is blank and nothing is left.
keep_last : Bytes → List Bytes → List Bytes
keep_last g [] = if is_whitespace g then [] else g ∷ []
keep_last g (h ∷ hs) = g ∷ h ∷ hs

trim_back : List Bytes → List Bytes
trim_back [] = []
trim_back (g ∷ gs) = keep_last g (trim_back gs)

unfoldable pub trim_start : Bytes → Bytes
unfolding trim_front chars concat is_whitespace
trim_start s = concat (trim_front (chars s))

unfoldable pub trim : Bytes → Bytes
unfolding trim_front trim_back keep_last chars concat is_whitespace
trim s = concat (trim_back (trim_front (chars s)))

-- A well-formed character: one byte below 0x80, or bytes from 0x80 on only.
abbrev pub IsChar : Bytes → Type 0
IsChar g = ((b : ℕ) × (g ≡ b ∷ []) × (b < 0x80)) ⊎ All (λ b. 0x80 ≤ b) g

-- A byte starts a character of its own, or goes in front of one that begins with a continuation.
attach-cases :
    (b : ℕ) (rest : Bytes) (gs : List Bytes)
    → (attach b rest gs ≡ (b ∷ []) ∷ gs)
      ⊎ ((c : ℕ) × (r : Bytes) × (g : Bytes) × (hs : List Bytes) × (rest ≡ c ∷ r)
          × (is_continuation c ≡ true)
          × (gs ≡ g ∷ hs)
          × (attach b rest gs ≡ (b ∷ g) ∷ hs))
unfolding attach
attach-cases b [] gs = inl refl
attach-cases b (c ∷ r) [] = inl refl
attach-cases b (c ∷ r) (g ∷ hs) = elim (Bool-cases (is_continuation c)) [
  | inl e ↦ inr (c, r, g, hs, refl, e, refl, rw e)
  | inr e ↦ inl (rw e)
]

chars-starts :
    (b : ℕ) (rest : Bytes) → (g : Bytes) × (gs : List Bytes) × (chars (b ∷ rest) ≡ (b ∷ g) ∷ gs)
chars-starts b rest = elim (attach-cases b rest (chars rest)) [
  | inl e ↦ ([], chars rest, (unfold chars in e))
  | inr (c, r, g, hs, _, _, _, e) ↦ (g, hs, (unfold chars in e))
]

-- No text is lost or added by taking it apart into characters.
pub concat-chars : (s : Bytes) → concat (chars s) ≡ s
unfolding chars concat
concat-chars [] = refl
concat-chars (b ∷ rest) = elim (attach-cases b rest (chars rest)) [
  | inl e ↦ rw e (ap (◌∷◌ b) (concat-chars rest))
  | inr (c, r, g, hs, _, _, e', e) ↦ rw e (ap (◌∷◌ b) (rw e' at (concat-chars rest)))
]

abbrev CharsCases : ℕ → Bytes → Type 0
CharsCases b rest =
    (chars (b ∷ rest) ≡ (b ∷ []) ∷ chars rest)
    ⊎ ((c : ℕ) × (r : Bytes) × (g : Bytes) × (hs : List Bytes) × (rest ≡ c ∷ r)
        × (is_continuation c ≡ true)
        × (chars rest ≡ (c ∷ g) ∷ hs)
        × (chars (b ∷ rest) ≡ (b ∷ c ∷ g) ∷ hs))

chars-cases : (b : ℕ) (rest : Bytes) → CharsCases b rest
chars-cases b rest = elim (attach-cases b rest (chars rest)) [
  | inl e ↦ inl (unfold chars in e)
  | inr (c, r, g, hs, er, k, eg, e) ↦
      let (g', gs', starts) = chars-starts c r in
      let same : g ∷ hs ≡ (c ∷ g') ∷ gs' = sym eg ∙ ap chars er ∙ starts in
      inr (c, r, g', gs', er, k, ap chars er ∙ starts, (unfold chars in (e ∙ cc same)))
]

chars_low :
    (b : ℕ) (rest : Bytes)
    → ((c : ℕ) (r : Bytes) → rest ≡ c ∷ r → is_continuation c ≡ false)
    → chars (b ∷ rest) ≡ (b ∷ []) ∷ chars rest
chars_low b rest h = elim (chars-cases b rest) [
  | inl e ↦ e
  | inr (c, r, g, hs, e, k, _, _) ↦ cc (h c r e)
]

continuation-le : (c : ℕ) → is_continuation c ≡ true → 0x80 ≤ c
unfolding is_continuation
continuation-le c h = ground arith

high_IsChar : (c : ℕ) (g : Bytes) → 0x80 ≤ c → IsChar (c ∷ g) → All (λ b. 0x80 ≤ b) (c ∷ g)
high_IsChar c g h (inl (b, e, lt)) = absurd (ground arith)
high_IsChar c g h (inr a) = a

chars_high :
    (b : ℕ) (rest : Bytes) → 0x80 ≤ b → All IsChar (chars rest) → All IsChar (chars (b ∷ rest))
chars_high b rest h a = elim (chars-cases b rest) [
  | inl e ↦ rw e (inr (h, tt), a)
  | inr (c, r, g, hs, er, k, eg, e) ↦
      let tailed : All IsChar ((c ∷ g) ∷ hs) = rw eg at a in
      rw e (inr (h, high_IsChar c g (continuation-le c k) tailed.0), tailed.1)
]

-- What a valid text that owes no continuation byte begins with.
abbrev NoContinuation : Bytes → Type 0
NoContinuation s = (c : ℕ) (r : Bytes) → s ≡ c ∷ r → is_continuation c ≡ false

record GoodChars (need : ℕ) (s : Bytes) : Type 0 where
  all : All IsChar (chars s)
  start : need ≡ 0 → NoContinuation s

lead-continuation : (b : ℕ) → is_some (lead b) ≡ true → is_continuation b ≡ false
unfolding lead is_continuation
lead-continuation b h = ground arith

lead_low :
    (b need lo hi : ℕ)
    → lead b ≡ some (need, lo, hi)
    → (0x80 ≤ lo) × ((need ≡ 0) ⊎ (0x80 ≤ b)) × ((b < 0x80) ⊎ (0x80 ≤ b))
unfolding lead
lead_low b need lo hi h = ground arith

lead_chars :
    (b : ℕ) (rest : Bytes) (need : ℕ)
    → (need ≡ 0) ⊎ (0x80 ≤ b)
    → (b < 0x80) ⊎ (0x80 ≤ b)
    → GoodChars need rest
    → All IsChar (chars (b ∷ rest))
lead_chars b rest need n (inr high) ih = chars_high b rest high ih.all
lead_chars b rest need n (inl low) ih =
    rw (chars_low b rest (ih.start (ground arith))) (inl (b, refl, low), ih.all)

abbrev head_or_zero : Bytes → ℕ
head_or_zero [] = 0
head_or_zero (b ∷ rest) = b

starts_plain : (b c : ℕ) → b ≡ c → is_some (lead b) ≡ true → is_continuation c ≡ false
starts_plain b c e h = rw e at (lead-continuation b h)

utf8-GoodChars :
    (s : Bytes) (need lo hi : ℕ) → 0x80 ≤ lo → utf8 need lo hi s ≡ true → GoodChars need s
unfolding utf8
utf8-GoodChars [] need lo hi hl h = record { all = (unfold chars in tt); start = λ _ c r e. cc }
utf8-GoodChars (b ∷ rest) zero lo hi hl h = elim (Option-cases (lead b)) [
  | inl e ↦ cc (rw (e, utf8) at h)
  | inr ((need, lo', hi'), e) ↦
      let later : utf8 need lo' hi' rest ≡ true = rw (e, utf8) at h in
      let facts = lead_low b need lo' hi' e in
      let ih = utf8-GoodChars rest need lo' hi' facts.0 later in
      record {
        all = lead_chars b rest need facts.1 facts.2 ih;
        start = λ _ c r same. starts_plain b c (ap head_or_zero same) (rw e);
      }
]
utf8-GoodChars (b ∷ rest) (suc need) lo hi hl h =
    let ih = utf8-GoodChars rest need 0x80 0xbf (omega arith) (ground arith) in
    record { all = chars_high b rest (ground arith) ih.all; start = λ e. absurd (omega arith) }

-- In a valid text every character is one ASCII byte, or has no ASCII byte at all.
pub chars-IsChar : (s : Bytes) → valid_utf8 s ≡ true → All IsChar (chars s)
unfolding valid_utf8
chars-IsChar s h = (utf8-GoodChars s 0 0x80 0xbf (omega arith) h).all

-- A text that a NUL-terminated field of `n` bytes may hold: it fits, has no NUL and is valid UTF-8.
pub record IsField (n : ℕ) (t : Bytes) : Type 0 where
  pub fits : length t ≤ n
  pub no_nul : contains 0 t ≡ false
  pub utf8 : valid_utf8 t ≡ true

pub nil_IsField : (n : ℕ) → IsField n []
unfolding valid_utf8 contains
nil_IsField n = record { fits = omega arith; no_nul = refl; utf8 = refl }

lead_ascii : (b : ℕ) → b < 0x80 → lead b ≡ some (0, 0x80, 0xbf)
unfolding lead
lead_ascii b h = let one : leb b 0x7f ≡ true = ground arith in rw one refl

-- ASCII is valid UTF-8.
pub ascii-valid_utf8 : (s : Bytes) → All (λ b. b < 0x80) s → valid_utf8 s ≡ true
unfolding valid_utf8 utf8
ascii-valid_utf8 [] h = refl
ascii-valid_utf8 (b ∷ rest) h = rw (utf8, lead_ascii b h.0) (ascii-valid_utf8 rest h.1)
