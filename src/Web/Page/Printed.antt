-- ===== src/Web/Page/Printed.antt =====
-- The numbers and addresses of a page are printed whole, and read back.
use jzf407_rust.Prelude.{
  All-map, ℕ, ◌+◌, ◌≤◌, ◌<◌, ◌≡◌, refl, some, [], ◌∷◌, ◌++◌, Bytes, length, length-append,
  append_assoc, All, All-append, le→leb, arith,
}
use jzf407_rust.Text.Decimal.{to_decimal, length-to_decimal, to_decimal-Digits, Digits}
use jzf407_rust.NetConfig.{Ipv4, parse_ipv4}
use jzf407_rust.NetConfig.Address.{dotted, parse_ipv4-dotted}
use jzf407_rust.NetConfig.Valid.{IsAddress}
use jzf407_rust.Web.Page.{
  push_whole, write_pieces, push_u8_dec, push_u16_dec, fmt_ipv4, fmt_u8, fmt_u16,
}

byte-short : (v : ℕ) → v < 256 → length (to_decimal v) ≤ 3
byte-short v h = length-to_decimal 2 v (omega arith)

push_whole_fits :
    (n : ℕ) (buf s : Bytes) → length buf + length s ≤ n → push_whole n buf s ≡ buf ++ s
push_whole_fits n buf s h = rw (le→leb _ _ h)

push_u8_dec_fits :
    (n : ℕ) (buf : Bytes) (v : ℕ)
    → length buf + 3 ≤ n
    → v < 256
    → push_u8_dec n buf v ≡ buf ++ to_decimal v
unfolding push_u8_dec write_pieces
push_u8_dec_fits n buf v room h =
    rw (le→leb (length buf + length (to_decimal v)) n (omega (arith, byte-short v h)))

length-dot : (s : Bytes) → length (s ++ b'.' ∷ []) ≡ length s + 1
length-dot s = omega (arith, length-append s (b'.' ∷ []))

-- No address is cut off by its buffer of 16 bytes.
pub fmt_ipv4-dotted : (ip : Ipv4) → IsAddress ip → fmt_ipv4 ip ≡ dotted ip
unfolding fmt_ipv4
fmt_ipv4-dotted ip h =
    let a = to_decimal ip.a in
    let b = to_decimal ip.b in
    let c = to_decimal ip.c in
    let la = byte-short ip.a h.a_lt in
    let lb = byte-short ip.b h.b_lt in
    let lc = byte-short ip.c h.c_lt in
    let l₀ = length-append a (b'.' ∷ []) in
    let l₁ = length-append (a ++ b'.' ∷ []) b in
    let l₂ = length-append ((a ++ b'.' ∷ []) ++ b) (b'.' ∷ []) in
    let l₃ = length-append (((a ++ b'.' ∷ []) ++ b) ++ b'.' ∷ []) c in
    let l₄ = length-append ((((a ++ b'.' ∷ []) ++ b) ++ b'.' ∷ []) ++ c) (b'.' ∷ []) in
    rw
      (
        push_u8_dec_fits 16 [] ip.a (omega arith) h.a_lt,
        push_whole_fits 16 a (b'.' ∷ []) (omega arith),
        push_u8_dec_fits 16 (a ++ b'.' ∷ []) ip.b (omega arith) h.b_lt,
        push_whole_fits 16 ((a ++ b'.' ∷ []) ++ b) (b'.' ∷ []) (omega arith),
        push_u8_dec_fits 16 (((a ++ b'.' ∷ []) ++ b) ++ b'.' ∷ []) ip.c (omega arith) h.c_lt,
        push_whole_fits 16 ((((a ++ b'.' ∷ []) ++ b) ++ b'.' ∷ []) ++ c) (b'.' ∷ []) (omega arith),
        push_u8_dec_fits 16 (((((a ++ b'.' ∷ []) ++ b) ++ b'.' ∷ []) ++ c) ++ b'.' ∷ []) ip.d
            (omega arith) h.d_lt,
      )
      (simp append_assoc refl)

-- Numbers are printed whole too.
pub fmt_u8-decimal : (v : ℕ) → v < 256 → fmt_u8 v ≡ to_decimal v
unfolding fmt_u8
fmt_u8-decimal v h = push_u8_dec_fits 4 [] v (omega arith) h

pub fmt_u16-decimal : (v : ℕ) → v < 65536 → fmt_u16 v ≡ to_decimal v
unfolding fmt_u16 push_u16_dec write_pieces
fmt_u16-decimal v h =
    rw (le→leb (0 + length (to_decimal v)) 6 (omega (arith, length-to_decimal 4 v (omega arith))))

-- Digits and dots.
abbrev pub Numeric : Bytes → Type 0
Numeric = All (λ b. (46 ≤ b) × (b ≤ 57))

Digits-Numeric : (s : Bytes) → Digits s → Numeric s
Digits-Numeric s h =
    All-map (λ c. (b'0' ≤ c) × (c ≤ b'9')) (λ b. (46 ≤ b) × (b ≤ 57))
      (λ c k. (omega (arith, k), omega (arith, k))) s h

pub decimal-Numeric : (v : ℕ) → Numeric (to_decimal v)
decimal-Numeric v = Digits-Numeric (to_decimal v) (to_decimal-Digits v)

pub dotted-Numeric : (ip : Ipv4) → Numeric (dotted ip)
dotted-Numeric ip = put ip.a _ (dot, put ip.b _ (dot, put ip.c _ (dot, decimal-Numeric ip.d)))
  where
    dot : (46 ≤ 46) × (46 ≤ 57)
    dot = (omega arith, omega arith)

    put : (v : ℕ) (rest : Bytes) → Numeric rest → Numeric (to_decimal v ++ rest)
    put v rest h = All-append (λ b. (46 ≤ b) × (b ≤ 57)) (to_decimal v) rest (decimal-Numeric v) h

-- An address of the configuration is read back from the page.
pub parse_ipv4-fmt_ipv4 : (ip : Ipv4) → IsAddress ip → parse_ipv4 (fmt_ipv4 ip) ≡ some ip
parse_ipv4-fmt_ipv4 ip h = rw (fmt_ipv4-dotted ip h) (parse_ipv4-dotted ip h)
