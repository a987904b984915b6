-- ===== src/Web/Browser/Encoded.antt =====
-- What a browser sends is an encoding of the text, and holds no separator and no blank.
use jzf407_rust.Prelude.{
  ℕ, ◌/◌, ◌%◌, ◌≤◌, ◌<◌, ◌≢◌, refl, inl, inr, [], ◌∷◌, Bytes, All, All-append, AreBytes, arith,
  ◌==◌, Bool-cases,
}
use jzf407_rust.WebForm.Encoding.{HexOf, Encodes, nil, plain, hex}
use jzf407_rust.Web.Browser.{is_literal, hex_char, encode_byte, form_encode}

-- A byte that neither ends a value nor is trimmed.
abbrev pub Sent : ℕ → Type 0
Sent b = (33 ≤ b) × (b < 0x80) × (b ≢ b'&') × (b ≢ b'=')

hex_char-Sent : (v : ℕ) → v < 16 → Sent (hex_char v)
hex_char-Sent v h = ground arith

hex_char-HexOf : (v : ℕ) → v < 16 → HexOf v (hex_char v)
hex_char-HexOf v h = ground arith

encode_byte-Sent : (b : ℕ) → b < 256 → All Sent (encode_byte b)
unfolding encode_byte
encode_byte-Sent b h = elim (Bool-cases (is_literal b)) [
  | inl e ↦ rw e (ground arith, tt)
  | inr e ↦ rw e (elim (Bool-cases (b == b' ')) [
    | inl k ↦ rw k (ground arith, tt)
    | inr k ↦ rw k (
      ground arith,
      (hex_char-Sent (b / 16) (omega arith), (hex_char-Sent (b % 16) (omega arith), tt)),
    )
  ])
]

pub form_encode-Sent : (s : Bytes) → AreBytes s → All Sent (form_encode s)
unfolding form_encode
form_encode-Sent [] h = tt
form_encode-Sent (b ∷ s) h =
    All-append Sent (encode_byte b) (form_encode s) (encode_byte-Sent b h.0)
      (form_encode-Sent s h.1)

pub form_encode-Encodes : (s : Bytes) → AreBytes s → Encodes (form_encode s) s
unfolding form_encode encode_byte
form_encode-Encodes [] h = nil
form_encode-Encodes (b ∷ s) h = elim (Bool-cases (is_literal b)) [
  | inl e ↦ rw e (plain (ground arith) (ground arith) (form_encode-Encodes s h.1))
  | inr e ↦ rw e (elim (Bool-cases (b == b' ')) [
    | inl k ↦ rw k (plain (omega arith) (ground arith) (form_encode-Encodes s h.1))
    | inr k ↦ rw k (
        hex (b / 16) (b % 16) refl (hex_char-HexOf (b / 16) (omega arith))
          (hex_char-HexOf (b % 16) (omega arith)) (omega arith) (form_encode-Encodes s h.1))
  ])
]
