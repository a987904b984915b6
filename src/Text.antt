-- ===== src/Text.antt =====
-- What the program uses of Rust's `str`, over the UTF-8 bytes of a text: validity, characters,
-- trimming, splitting, and the decimal form of unsigned integers.
pub mod Utf8
pub mod Split
pub mod Decimal
use Prim.Native.Char.{code}
use Prim.Native.String.{String}
use jzf407_rust.Prelude.{ℕ, ◌+◌, ◌/◌, ◌%◌, List, [], ◌∷◌, ◌++◌, Bytes, ltb, if◌then◌else◌}

-- The bytes of an ASCII literal.
abbrev pub codes : String → Bytes
codes String.[] = []
codes (String.◌∷◌ c s) = code c ∷ codes s

-- The UTF-8 encoding of a code point of at most 16 bits, as are all in the program's literals.
unfoldable pub encode_code : ℕ → Bytes
encode_code c =
    if ltb c 0x80
    then c ∷ []
    else (if ltb c 0x800
        then (0xc0 + c / 64) ∷ (0x80 + c % 64) ∷ []
        else (0xe0 + c / 4096) ∷ (0x80 + c / 64 % 64) ∷ (0x80 + c % 64) ∷ [])

-- The bytes of a literal.
unfoldable pub text : String → Bytes
unfolding encode_code
text String.[] = []
text (String.◌∷◌ c s) = encode_code (code c) ++ text s

-- The bytes of a literal that the source continues over several lines with `\`.
unfoldable pub texts : List String → Bytes
unfolding text encode_code
texts [] = []
texts (s ∷ ss) = text s ++ texts ss
