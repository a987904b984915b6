-- ===== src/WebForm.antt =====
-- logic/src/web_form.rs: form url-decoding, HTML escaping of attributes, and kept secrets.
-- A `heapless::String<N>` is its bytes, at most `N` of them; `N` is an argument.
pub mod Encoding
pub mod Decode
pub mod Escape
mod Tests
use jzf407_rust.Prelude.{
  ℕ, ◌+◌, ◌-◌, ◌*◌, ◌%◌, bit_or, Bool, true, false, ◌&&◌, Option, none, some, List, [], ◌∷◌, ◌++◌,
  Bytes, length, contains, bytes_eq, leb, ltb, ◌==◌, if◌then◌else◌,
}
use jzf407_rust.Text.{codes}
use jzf407_rust.Text.Utf8.{from_utf8, chars}

pub data FormError : Type 0 where
  capacity invalid_encoding : FormError

pub data Result {ℓ} (A : Type ℓ) : Type ℓ where
  err : FormError → Result A
  ok : A → Result A

infixl 5 ◌>>=◌
abbrev pub ◌>>=◌ {ℓ ℓ'} : {X : Type ℓ} {Y : Type ℓ'} → Result X → (X → Result Y) → Result Y
err problem >>= next = err problem
ok x >>= next = next x

infixl 5 ◌>>◌
abbrev ◌>>◌ {ℓ} : {Y : Type ℓ} → Result (Unit {0}) → Result Y → Result Y
done >> next = done >>= λ _. next

-- `ok_or(e)`
abbrev ok_or {ℓ} : {A : Type ℓ} → FormError → Option A → Result A
ok_or e none = err e
ok_or e (some a) = ok a

-- `.ok()`
abbrev pub to_option {ℓ} : {A : Type ℓ} → Result A → Option A
to_option (ok a) = some a
to_option (err e) = none

-- `push_str`, and `push` of one byte: refused whole where it does not fit.
push_str : ℕ → Bytes → Bytes → Result Bytes
push_str n out s = if leb (length out + length s) n then ok (out ++ s) else err capacity

pub hex_digit : ℕ → Option ℕ
hex_digit b =
    if leb b'0' b && leb b b'9'
    then some (b - b'0')
    else if leb b'a' b && leb b b'f'
    then some (b - b'a' + 10)
    else if leb b'A' b && leb b b'F'
    then some (b - b'A' + 10)
    else none

-- `(h << 4) | l` on bytes
abbrev hex_byte : ℕ → ℕ → ℕ
hex_byte h l = bit_or (h * 16 % 256) l

-- A byte that is no `%`.
pub push_plain : ℕ → Bytes → ℕ → Result Bytes
unfolding push_str
push_plain n out b = push_str n out ((if b == b'+' then b' ' else b) ∷ [])

push_hex : ℕ → Bytes → ℕ → ℕ → Result Bytes
unfolding push_str hex_digit
push_hex n out x y = do
  h ← ok_or invalid_encoding (hex_digit x)
  l ← ok_or invalid_encoding (hex_digit y)
  push_str n out (hex_byte h l ∷ [])

-- The `while` loop, on the bytes from `i` on; a `%` asks for two bytes behind it.
pub decode_loop : ℕ → Bytes → Bytes → Result Bytes
decode_loop n out [] = ok out
decode_loop n out (b ∷ []) = if b == b'%' then err invalid_encoding else push_plain n out b
decode_loop n out (b ∷ x ∷ []) =
    if b == b'%'
    then err invalid_encoding
    else (push_plain n out b >>= λ out'. decode_loop n out' (x ∷ []))
decode_loop n out (b ∷ x ∷ y ∷ rest) =
    if b == b'%'
    then (push_hex n out x y >>= λ out'. decode_loop n out' rest)
    else (push_plain n out b >>= λ out'. decode_loop n out' (x ∷ y ∷ rest))

-- What follows the loop.
finish_decode : ℕ → Bytes → Result Bytes
finish_decode n bytes = do
  (if contains 0 bytes then err invalid_encoding else ok tt)
  decoded ← ok_or invalid_encoding (from_utf8 bytes)
  (if leb (length decoded) n then ok decoded else err capacity)

unfoldable pub form_url_decode : ℕ → Bytes → Result Bytes
unfolding decode_loop push_plain push_hex finish_decode
form_url_decode n s = decode_loop n [] s >>= finish_decode n

escape_char : Bytes → Bytes
escape_char ch =
    if bytes_eq ch (codes "&")
    then codes "&amp;"
    else if bytes_eq ch (codes "<")
    then codes "&lt;"
    else if bytes_eq ch (codes ">")
    then codes "&gt;"
    else if bytes_eq ch (b'"' ∷ [])
    then codes "&quot;"
    else if bytes_eq ch (b'\'' ∷ [])
    then codes "&#39;"
    else ch

escape_loop : ℕ → Bytes → List Bytes → Result Bytes
unfolding escape_char push_str
escape_loop n out [] = ok out
escape_loop n out (ch ∷ rest) = do out' ← push_str n out (escape_char ch); escape_loop n out' rest

unfoldable pub html_escape_attr : ℕ → Bytes → Result Bytes
unfolding escape_loop
html_escape_attr n s = escape_loop n [] (chars s)

unfoldable pub secret_from_form : ℕ → Bytes → Bytes → Result Bytes
secret_from_form n current submitted =
    if length submitted == 0
    then ok current
    else if leb (length submitted) n
    then ok submitted
    else err capacity
