-- ===== src/Auth/Base64.antt =====
-- The encoder against a decoder: what it writes is read back.
use jzf407_rust.Prelude.{
  ℕ, ◌+◌, ◌-◌, ◌*◌, ◌/◌, ◌%◌, ◌^◌, ◌≤◌, ◌<◌, ◌≡◌, refl, sym, ap, ◌∙◌, true, false, ◌&&◌, [], ◌∷◌,
  ◌++◌, append_assoc, append-nil, Bytes, AreBytes, cons_eq, length, length-append, get_or, leb,
  le→leb, ◌==◌, ==_iff, if◌then◌else◌, all_below, all_below_sound, bit_and, bit_or, bit_and_3,
  bit_and_15, bit_and_63, bit_or_16, bit_or_4, arith, not, Bool,
}
use jzf407_rust.Auth.{b64, push_all, char₀, char₁, char₂, char₃, push_four, encode}

-- The value of a base64 digit, by the ranges of the alphabet.
pub value : ℕ → ℕ
value c =
    if leb b'A' c && leb c b'Z'
    then c - b'A'
    else if leb b'a' c && leb c b'z'
    then c - b'a' + 26
    else if leb b'0' c && leb c b'9'
    then c - b'0' + 52
    else if c == b'+'
    then 62
    else 63

-- Four characters at a time; `=` closes the text.
pub decode : Bytes → Bytes
decode (w ∷ x ∷ y ∷ z ∷ rest) =
    let later = decode rest in
    let b₀ = value w * 4 + value x / 16 in
    let b₁ = value x % 16 * 16 + value y / 4 in
    let b₂ = value y % 4 * 64 + value z in
    if y == b'=' then b₀ ∷ [] else if z == b'=' then b₀ ∷ b₁ ∷ [] else b₀ ∷ b₁ ∷ b₂ ∷ later
decode _ = []

value_table : all_below 64 (λ i. value (get_or b64 i 0) == i) ≡ true
unfolding all_below value
value_table = refl

value_digit : (i : ℕ) → i < 64 → value (get_or b64 i 0) ≡ i
value_digit i h = (==_iff _ _).0 (all_below_sound 64 _ i value_table h)

pad_table : all_below 64 (λ i. not (get_or b64 i 0 == b'=')) ≡ true
unfolding all_below
pad_table = refl

not_pad : (i : ℕ) → i < 64 → (get_or b64 i 0 == b'=') ≡ false
not_pad i h = not_true (all_below_sound 64 (λ j. not (get_or b64 j 0 == b'=')) i pad_table h)
  where
    not_true : {b : Bool} → not b ≡ true → b ≡ false
    not_true {b} e = ground arith

-- The positions in the alphabet, without bit operations.
position₁ :
    (a b : ℕ)
    → a < 256
    → b < 256
    → bit_or (bit_and a 3 * 2 ^ 4 % 256) (b / 2 ^ 4) ≡ a % 4 * 16 + b / 16
position₁ a b ha hb =
    let e : bit_and a 3 * 2 ^ 4 % 256 ≡ a % 4 * 16 = omega (arith, bit_and_3 a ha) in
    ap (λ (t : ℕ). bit_or t (b / 16)) e ∙ bit_or_16 (a % 4) (b / 16) (omega arith) (omega arith)

position₂ :
    (b c : ℕ)
    → b < 256
    → c < 256
    → bit_or (bit_and b 15 * 2 ^ 2 % 256) (c / 2 ^ 6) ≡ b % 16 * 4 + c / 64
position₂ b c hb hc =
    let e : bit_and b 15 * 2 ^ 2 % 256 ≡ b % 16 * 4 = omega (arith, bit_and_15 b hb) in
    ap (λ (t : ℕ). bit_or t (c / 64)) e ∙ bit_or_4 (b % 16) (c / 64) (omega arith) (omega arith)

-- A character at a known position of the alphabet.
digit_at :
    (p i : ℕ) → p ≡ i → i < 64 → (value (get_or b64 p 0) ≡ i) × ((get_or b64 p 0 == b'=') ≡ false)
digit_at p i e h = rw e (value_digit i h, not_pad i h)

module _ (a b c : ℕ) (ha : a < 256) (hb : b < 256) (hc : c < 256) where
  value₀ : value (char₀ a) ≡ a / 4
  value₀ = (digit_at (a / 2 ^ 2) (a / 4) refl (omega arith)).0

  value₁ : value (char₁ a b) ≡ a % 4 * 16 + b / 16
  value₁ = (digit_at _ _ (position₁ a b ha hb) (omega arith)).0

  third : (value (char₂ b c) ≡ b % 16 * 4 + c / 64) × ((char₂ b c == b'=') ≡ false)
  third = digit_at _ _ (position₂ b c hb hc) (omega arith)

  fourth : (value (char₃ c) ≡ c % 64) × ((char₃ c == b'=') ≡ false)
  fourth = digit_at _ _ (bit_and_63 c hc) (omega arith)

  decode_whole :
      (rest : Bytes)
      → decode (char₀ a ∷ char₁ a b ∷ char₂ b c ∷ char₃ c ∷ rest) ≡ a ∷ b ∷ c ∷ decode rest
  unfolding decode
  decode_whole rest =
      rw (third.1, fourth.1)
        (cons_eq (omega (arith, value₀, value₁)) (
          cons_eq (omega (arith, value₁, third.0))
            (cons_eq (omega (arith, third.0, fourth.0)) refl)))

-- The encoded text, without a capacity.
pub base64 : Bytes → Bytes
base64 [] = []
base64 (a ∷ []) = char₀ a ∷ char₁ a 0 ∷ b'=' ∷ b'=' ∷ []
base64 (a ∷ b ∷ []) = char₀ a ∷ char₁ a b ∷ char₂ b 0 ∷ b'=' ∷ []
base64 (a ∷ b ∷ c ∷ rest) = char₀ a ∷ char₁ a b ∷ char₂ b c ∷ char₃ c ∷ base64 rest

-- Decoding gives back every sequence of bytes.
pub decode-base64 : (s : Bytes) → AreBytes s → decode (base64 s) ≡ s
unfolding base64
decode-base64 [] h = (unfold decode in refl)
decode-base64 (a ∷ []) h =
    (unfold decode in
      (cons_eq
        (omega (
          arith,
          value₀ a 0 0 h.0 (omega arith) (omega arith),
          value₁ a 0 0 h.0 (omega arith) (omega arith),
        ))
        refl))
decode-base64 (a ∷ b ∷ []) h =
    let hb = h.1.0 in
    (unfold decode in
      (rw (third a b 0 h.0 hb (omega arith)).1 (
        cons_eq
          (omega (arith, value₀ a b 0 h.0 hb (omega arith), value₁ a b 0 h.0 hb (omega arith)))
          (cons_eq
            (omega (arith, value₁ a b 0 h.0 hb (omega arith), (third a b 0 h.0 hb (omega arith)).0))
            refl))))
decode-base64 (a ∷ b ∷ c ∷ rest) h =
    decode_whole a b c h.0 h.1.0 h.1.1.0 (base64 rest)
    ∙ ap (λ (t : Bytes). a ∷ b ∷ c ∷ t) (decode-base64 rest h.1.1.1)

push_more :
    (out s : Bytes) (x : ℕ)
    → length out + length s < 96
    → push_all (out ++ s) (x ∷ []) ≡ out ++ (s ++ x ∷ [])
unfolding push_all
push_more out s x h =
    let room : length (out ++ s) + 1 ≤ 96 = omega (arith, length-append out s) in
    rw (le→leb (length (out ++ s) + 1) 96 room) (append_assoc out s (x ∷ []))

push_four_fits :
    (out : Bytes) (w x y z : ℕ)
    → length out + 4 ≤ 96
    → push_four out w x y z ≡ out ++ (w ∷ x ∷ y ∷ z ∷ [])
push_four_fits out w x y z h =
    let one : push_all out (w ∷ []) ≡ out ++ w ∷ [] =
      ap (λ (t : Bytes). push_all t (w ∷ [])) (sym (append-nil out))
      ∙ push_more out [] w (omega arith) in
    rw (
      one,
      push_more out (w ∷ []) x (omega arith),
      push_more out (w ∷ x ∷ []) y (omega arith),
      push_more out (w ∷ x ∷ y ∷ []) z (omega arith),
    )

-- Where the whole text fits the capacity, the encoder writes it.
pub encode-base64 :
    (out s : Bytes) → length out + length (base64 s) ≤ 96 → encode out s ≡ out ++ base64 s
unfolding encode base64
encode-base64 out [] h = sym (append-nil out)
encode-base64 out (a ∷ []) h = push_four_fits out _ _ _ _ (omega arith)
encode-base64 out (a ∷ b ∷ []) h = push_four_fits out _ _ _ _ (omega arith)
encode-base64 out (a ∷ b ∷ c ∷ rest) h =
    let four = char₀ a ∷ char₁ a b ∷ char₂ b c ∷ char₃ c ∷ [] in
    let room : length (out ++ four) + length (base64 rest) ≤ 96 =
      omega (arith, length-append out four) in
    rw (push_four_fits out (char₀ a) (char₁ a b) (char₂ b c) (char₃ c) (omega arith))
      (encode-base64 (out ++ four) rest room ∙ append_assoc out four (base64 rest))

-- Four characters for each three bytes begun.
pub length-base64 : (s : Bytes) → length (base64 s) ≡ (length s + 2) / 3 * 4
unfolding base64
length-base64 [] = omega arith
length-base64 (a ∷ []) = omega arith
length-base64 (a ∷ b ∷ []) = omega arith
length-base64 (a ∷ b ∷ c ∷ rest) = omega (arith, length-base64 rest)
