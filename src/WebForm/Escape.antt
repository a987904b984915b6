-- ===== src/WebForm/Escape.antt =====
-- Escaping against the text that it stands for: nothing is cut off, nothing breaks out of a
-- quoted attribute, and a buffer of six times the length is always enough.
pub mod Entities
use jzf407_rust.Prelude.{
  ℕ, ◌*◌, ◌≤◌, ◌≡◌, ◌≢◌, sym, ap, ◌∙◌, subst, inl, inr, true, false, List, [], ◌∷◌, ◌++◌, Bytes,
  length, length-append, append_assoc, append-nil, All, All-append, bytes_eq, bytes_eq_iff, leb,
  le→leb, arith, if◌then◌else◌, Bool-cases,
}
use jzf407_rust.Text.{codes}
use jzf407_rust.Text.Utf8.{valid_utf8, chars, concat, concat-chars, chars-IsChar, IsChar}
use jzf407_rust.WebForm.{
  capacity, Result, ok, err, push_str, escape_char, escape_loop, html_escape_attr,
}

escaped_chars : List Bytes → Bytes
escaped_chars [] = []
escaped_chars (g ∷ gs) = escape_char g ++ escaped_chars gs

-- The whole escaped text.
pub escaped : Bytes → Bytes
unfolding escaped_chars
escaped s = escaped_chars (chars s)

abbrev stored : ℕ → Bytes → Result Bytes
stored n t = if leb (length t) n then ok t else err capacity

stored_long :
    (n : ℕ) (out t : Bytes) → leb (length out) n ≡ false → stored n (out ++ t) ≡ err capacity
stored_long n out t h = ground (arith, length-append out t)

push_str-leb :
    (n : ℕ) (out s : Bytes)
    → push_str n out s ≡ (if leb (length (out ++ s)) n then ok (out ++ s) else err capacity)
unfolding push_str
push_str-leb n out s = rw (length-append out s)

escape_loop-stored :
    (n : ℕ) (out : Bytes) (gs : List Bytes)
    → leb (length out) n ≡ true
    → escape_loop n out gs ≡ stored n (out ++ escaped_chars gs)
unfolding escape_loop escaped_chars
escape_loop-stored n out [] h = rw (append-nil out, h)
escape_loop-stored n out (g ∷ gs) h = elim (Bool-cases (leb (length (out ++ escape_char g)) n)) [
  | inl fits ↦
      rw (push_str-leb n out (escape_char g), fits)
        (escape_loop-stored n (out ++ escape_char g) gs fits
          ∙ ap (stored n) (append_assoc out (escape_char g) (escaped_chars gs)))
  | inr full ↦
      rw (push_str-leb n out (escape_char g), full)
        (sym (stored_long n (out ++ escape_char g) (escaped_chars gs) full)
          ∙ ap (stored n) (append_assoc out (escape_char g) (escaped_chars gs)))
]

-- The escaped text is returned whole where it fits the capacity, and is an error otherwise.
pub html_escape_attr-escaped :
    (n : ℕ) (s : Bytes)
    → html_escape_attr n s ≡ (if leb (length (escaped s)) n then ok (escaped s) else err capacity)
unfolding html_escape_attr escaped
html_escape_attr-escaped n s = escape_loop-stored n [] (chars s) (ground arith)

stored-ok : (n : ℕ) (x t : Bytes) → stored n x ≡ ok t → x ≡ t
stored-ok n x t e = ground arith

bytes_ne : {x y : Bytes} → bytes_eq x y ≡ false → x ≢ y
bytes_ne {x} {y} e p = cc ((bytes_eq_iff x y).1 p)

-- Bytes that end neither a tag nor a quoted attribute.
abbrev pub IsInert : ℕ → Type 0
IsInert b = (b ≢ b'<') × (b ≢ b'>') × (b ≢ b'"') × (b ≢ b'\'')

high-IsInert : (g : Bytes) → All (λ b. 0x80 ≤ b) g → All IsInert g
high-IsInert [] h = tt
high-IsInert (b ∷ g) h = (ground arith, high-IsInert g h.1)

-- A property of what a character is escaped to, by the five that have an entity and the others.
escape_char_elim {ℓ} :
    (P : Bytes → Type ℓ) (g : Bytes)
    → P (codes "&amp;")
    → P (codes "&lt;")
    → P (codes "&gt;")
    → P (codes "&quot;")
    → P (codes "&#39;")
    → (g ≢ codes "<" → g ≢ codes ">" → g ≢ b'"' ∷ [] → g ≢ b'\'' ∷ [] → P g)
    → P (escape_char g)
unfolding escape_char
escape_char_elim P g amp lt gt quot apos other = elim (Bool-cases (bytes_eq g (codes "&"))) [
  | inl e ↦ rw e amp
  | inr e₀ ↦ rw e₀ (elim (Bool-cases (bytes_eq g (codes "<"))) [
    | inl e ↦ rw e lt
    | inr e₁ ↦ rw e₁ (elim (Bool-cases (bytes_eq g (codes ">"))) [
      | inl e ↦ rw e gt
      | inr e₂ ↦ rw e₂ (elim (Bool-cases (bytes_eq g (b'"' ∷ []))) [
        | inl e ↦ rw e quot
        | inr e₃ ↦ rw e₃ (elim (Bool-cases (bytes_eq g (b'\'' ∷ []))) [
          | inl e ↦ rw e apos
          | inr e₄ ↦ rw e₄ (other (bytes_ne e₁) (bytes_ne e₂) (bytes_ne e₃) (bytes_ne e₄))
        ])
      ])
    ])
  ])
]

escape_char-IsInert : (g : Bytes) → IsChar g → All IsInert (escape_char g)
escape_char-IsInert g (inl (b, e, lt)) =
    escape_char_elim (All IsInert) g (omega arith) (omega arith) (omega arith) (omega arith)
      (omega arith)
      λ l r q a. rw e (
        (
          λ z. l (e ∙ ap one z),
          λ z. r (e ∙ ap one z),
          λ z. q (e ∙ ap one z),
          λ z. a (e ∙ ap one z),
        ),
        tt,
      )
  where
    one : ℕ → Bytes
    one x = x ∷ []
escape_char-IsInert g (inr high) =
    escape_char_elim (All IsInert) g (omega arith) (omega arith) (omega arith) (omega arith)
      (omega arith) λ _ _ _ _. high-IsInert g high

escaped_chars-IsInert : (gs : List Bytes) → All IsChar gs → All IsInert (escaped_chars gs)
unfolding escaped_chars
escaped_chars-IsInert [] h = tt
escaped_chars-IsInert (g ∷ gs) h =
    All-append IsInert (escape_char g) (escaped_chars gs) (escape_char-IsInert g h.0)
      (escaped_chars-IsInert gs h.1)

-- Whatever a valid text holds, its escaped form has no `<`, `>`, `"` or `'`: written between
-- quotes it ends neither the attribute nor the tag.
pub html_escape_attr-IsInert :
    (n : ℕ) (s t : Bytes) → valid_utf8 s ≡ true → html_escape_attr n s ≡ ok t → All IsInert t
unfolding escaped
html_escape_attr-IsInert n s t v e =
    let same : escaped s ≡ t = stored-ok n (escaped s) t (sym (html_escape_attr-escaped n s) ∙ e) in
    subst (All IsInert) same (escaped_chars-IsInert (chars s) (chars-IsChar s v))

length-escape_char : (g : Bytes) → length (escape_char g) ≤ 6 * length g
unfolding escape_char
length-escape_char g = ground (
  arith,
  bytes_eq_iff g (codes "&"),
  bytes_eq_iff g (codes "<"),
  bytes_eq_iff g (codes ">"),
  bytes_eq_iff g (b'"' ∷ []),
  bytes_eq_iff g (b'\'' ∷ []),
)

length-escaped_chars : (gs : List Bytes) → length (escaped_chars gs) ≤ 6 * length (concat gs)
unfolding escaped_chars concat
length-escaped_chars [] = omega arith
length-escaped_chars (g ∷ gs) = omega (
  arith,
  length-append (escape_char g) (escaped_chars gs),
  length-append g (concat gs),
  length-escape_char g,
  length-escaped_chars gs,
)

-- A capacity of six times the length is always enough: the escaped text is then returned whole.
pub html_escape_attr_fits :
    (n : ℕ) (s : Bytes) → 6 * length s ≤ n → html_escape_attr n s ≡ ok (escaped s)
unfolding escaped
html_escape_attr_fits n s h =
    let short : length (escaped_chars (chars s)) ≤ n =
      omega (arith, length-escaped_chars (chars s), ap length (concat-chars s)) in
    html_escape_attr-escaped n s ∙ rw (le→leb _ _ short)

-- The escaped form of a valid text ends neither a tag nor an attribute.
pub escaped-IsInert : (s : Bytes) → valid_utf8 s ≡ true → All IsInert (escaped s)
unfolding escaped
escaped-IsInert s v = escaped_chars-IsInert (chars s) (chars-IsChar s v)
