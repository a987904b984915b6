-- ===== src/WebForm/Encoding.antt =====
-- The relation "this text is an encoding of those bytes", and the steps of the decoder.
use jzf407_rust.Prelude.{
  ℕ, ◌+◌, ◌-◌, ◌*◌, ◌≤◌, ◌<◌, ◌≡◌, ◌≢◌, ◌⊎◌, refl, sym, ap, ◌∙◌, bit_or, bit_or_16, ne→==-false,
  some, [], ◌∷◌, Bytes, arith, ◌==◌, if◌then◌else◌,
}
use jzf407_rust.WebForm.{Result, ok, err, ◌>>=◌, hex_digit, hex_byte, push_plain, decode_loop}

-- `x` is a hexadecimal digit of value `v`, in either case.
abbrev pub HexOf : ℕ → ℕ → Type 0
HexOf v x =
    ((v < 10) × (x ≡ b'0' + v))
    ⊎ (((10 ≤ v) × (v < 16)) × ((x ≡ b'a' + (v - 10)) ⊎ (x ≡ b'A' + (v - 10))))

-- `Encodes s t`: the form text `s` stands for the bytes `t`.
pub data Encodes : Bytes → Bytes → Type 0 where
  nil : Encodes [] []
  plain :
      {b c : ℕ} {s t : Bytes}
      → b ≢ b'%'
      → c ≡ (if b == b'+' then b' ' else b)
      → Encodes s t
      → Encodes (b ∷ s) (c ∷ t)
  hex :
      {b x y c : ℕ} {s t : Bytes} (h l : ℕ)
      → b ≡ b'%'
      → HexOf h x
      → HexOf l y
      → c ≡ h * 16 + l
      → Encodes s t
      → Encodes (b ∷ x ∷ y ∷ s) (c ∷ t)

pub hex_digit-HexOf : (x v : ℕ) → hex_digit x ≡ some v → HexOf v x
unfolding hex_digit
hex_digit-HexOf x v h = ground arith

pub HexOf-hex_digit : (x v : ℕ) → HexOf v x → hex_digit x ≡ some v
unfolding hex_digit
HexOf-hex_digit x v h = ground arith

pub HexOf-lt : (x v : ℕ) → HexOf v x → v < 16
HexOf-lt x v h = ground arith

pub hex_byte_lem : (h l : ℕ) → h < 16 → l < 16 → hex_byte h l ≡ h * 16 + l
hex_byte_lem h l hh hl = ap (λ (t : ℕ). bit_or t l) (omega arith) ∙ bit_or_16 h l hh hl

>>=-ok {ℓ} : {A : Type ℓ} (m : Result A) → (m >>= ok) ≡ m
>>=-ok (ok a) = refl
>>=-ok (err e) = refl

-- The loop at a byte that is no `%`, whatever follows it.
pub loop_plain :
    (n b : ℕ) (out s : Bytes)
    → b ≢ b'%'
    → decode_loop n out (b ∷ s) ≡ (push_plain n out b >>= λ out'. decode_loop n out' s)
unfolding decode_loop
loop_plain n b out [] h = rw (ne→==-false b b'%' h) (sym (>>=-ok (push_plain n out b)))
loop_plain n b out (x ∷ []) h = rw (ne→==-false b b'%' h)
loop_plain n b out (x ∷ y ∷ rest) h = rw (ne→==-false b b'%' h)

pub >>=-eq-ok {ℓ ℓ'} :
    {X : Type ℓ} {Y : Type ℓ'} (first : Result X) (next : X → Result Y) {y : Y}
    → (first >>= next) ≡ ok y
    → (x : X) × (first ≡ ok x) × (next x ≡ ok y)
>>=-eq-ok (err problem) next e = cc
>>=-eq-ok (ok x) next e = (x, refl, e)
