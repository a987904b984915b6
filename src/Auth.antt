-- ===== src/Auth.antt =====
-- logic/src/auth.rs: the base64 form of `user:pass`, in buffers of 96 bytes.
pub mod Base64
pub mod Injective
mod Tests
use jzf407_rust.Prelude.{
  ℕ, ◌+◌, ◌*◌, ◌/◌, ◌%◌, ◌^◌, bit_and, bit_or, [], ◌∷◌, ◌++◌, Bytes, length, get_or, leb,
  if◌then◌else◌,
}
use jzf407_rust.Text.{codes}

abbrev pub b64 : Bytes
b64 = codes "ABCDEFGHIJKLMNOPQRSTUVWXYZabcdefghijklmnopqrstuvwxyz0123456789+/"

-- `extend_from_slice`, and `push` of one element: what does not fit is left out whole.
pub push_all : Bytes → Bytes → Bytes
push_all out s = if leb (length out + length s) 96 then out ++ s else out

-- The bytes that are encoded: `user`, a colon, `pass`.
pub raw : Bytes → Bytes → Bytes
unfolding push_all
raw user pass = push_all (push_all (push_all [] user) (b':' ∷ [])) pass

-- The four characters of a chunk; the last two are `=` where the chunk is short.
abbrev pub char₀ : ℕ → ℕ
char₀ b₀ = get_or b64 (b₀ / 2 ^ 2) 0

abbrev pub char₁ : ℕ → ℕ → ℕ
char₁ b₀ b₁ = get_or b64 (bit_or (bit_and b₀ 0x03 * 2 ^ 4 % 256) (b₁ / 2 ^ 4)) 0

abbrev pub char₂ : ℕ → ℕ → ℕ
char₂ b₁ b₂ = get_or b64 (bit_or (bit_and b₁ 0x0f * 2 ^ 2 % 256) (b₂ / 2 ^ 6)) 0

abbrev pub char₃ : ℕ → ℕ
char₃ b₂ = get_or b64 (bit_and b₂ 0x3f) 0

abbrev push_four : Bytes → ℕ → ℕ → ℕ → ℕ → Bytes
push_four out w x y z =
    push_all (push_all (push_all (push_all out (w ∷ [])) (x ∷ [])) (y ∷ [])) (z ∷ [])

-- The loop over `raw.chunks(3)`.
pub encode : Bytes → Bytes → Bytes
encode out [] = out
encode out (b₀ ∷ []) = push_four out (char₀ b₀) (char₁ b₀ 0) b'=' b'='
encode out (b₀ ∷ b₁ ∷ []) = push_four out (char₀ b₀) (char₁ b₀ b₁) (char₂ b₁ 0) b'='
encode out (b₀ ∷ b₁ ∷ b₂ ∷ rest) =
    encode (push_four out (char₀ b₀) (char₁ b₀ b₁) (char₂ b₁ b₂) (char₃ b₂)) rest

unfoldable pub basic_token : Bytes → Bytes → Bytes
unfolding raw encode push_all
basic_token user pass = encode [] (raw user pass)
