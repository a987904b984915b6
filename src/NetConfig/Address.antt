-- ===== src/NetConfig/Address.antt =====
-- What the parsers of addresses and ports let through.
use jzf407_rust.Prelude.{
  ℕ, ◌≤◌, ◌<◌, ◌≡◌, subst, some, some_inj, List, [], ◌∷◌, Bytes, arith, >>=-eq-some, ◌++◌,
}
use jzf407_rust.Text.Utf8.{trim}
use jzf407_rust.Text.Split.{Avoids, split, split_part, split_last}
use jzf407_rust.Text.Decimal.{
  Digits-Avoids, parse_uint, parse_uint-le, to_decimal, to_decimal-Digits, parse_uint-to_decimal,
}
use jzf407_rust.NetConfig.{Ipv4, next_octet, no_more, parse_ipv4, parse_port}
use jzf407_rust.NetConfig.Valid.{IsAddress}

next_octet-lt :
    (parts : List Bytes) (v : ℕ) (rest : List Bytes) → next_octet parts ≡ some (v, rest) → v < 256
unfolding next_octet
next_octet-lt [] v rest e = cc
next_octet-lt (p ∷ ps) v rest e =
    let (w, parsed, same) = >>=-eq-some (parse_uint 255 p) _ e in
    let le : w ≤ 255 = parse_uint-le 255 p w parsed in let eq : w ≡ v = cc in omega arith

-- The four numbers of an address are bytes.
pub parse_ipv4-IsAddress : (s : Bytes) (ip : Ipv4) → parse_ipv4 s ≡ some ip → IsAddress ip
unfolding parse_ipv4
parse_ipv4-IsAddress s ip e =
    let ((o₀, p₀), e₀, f₀) = >>=-eq-some (next_octet (split b'.' s)) _ e in
    let ((o₁, p₁), e₁, f₁) = >>=-eq-some (next_octet p₀) _ f₀ in
    let ((o₂, p₂), e₂, f₂) = >>=-eq-some (next_octet p₁) _ f₁ in
    let ((o₃, p₃), e₃, f₃) = >>=-eq-some (next_octet p₂) _ f₂ in
    let (_, _, same) =
      >>=-eq-some (no_more p₃) (λ _. some (record { a = o₀; b = o₁; c = o₂; d = o₃ })) f₃ in
    subst IsAddress (some_inj same) (record {
      a_lt = next_octet-lt _ o₀ p₀ e₀;
      b_lt = next_octet-lt _ o₁ p₁ e₁;
      c_lt = next_octet-lt _ o₂ p₂ e₂;
      d_lt = next_octet-lt _ o₃ p₃ e₃;
    })

-- A port is in 1..=65535.
pub parse_port_range : (s : Bytes) (p : ℕ) → parse_port s ≡ some p → (1 ≤ p) × (p < 65536)
unfolding parse_port
parse_port_range s p e =
    let (w, parsed, later) = >>=-eq-some (parse_uint 65535 (trim s)) _ e in
    let le : w ≤ 65535 = parse_uint-le 65535 (trim s) w parsed in ground arith

-- The four numbers with dots between them.
abbrev pub dotted : Ipv4 → Bytes
dotted ip =
    to_decimal ip.a
    ++ (b'.' ∷ to_decimal ip.b ++ (b'.' ∷ to_decimal ip.c ++ (b'.' ∷ to_decimal ip.d)))

next_octet-to_decimal :
    (v : ℕ) (rest : List Bytes) → v < 256 → next_octet (to_decimal v ∷ rest) ≡ some (v, rest)
unfolding next_octet
next_octet-to_decimal v rest h = rw (parse_uint-to_decimal 255 v (omega arith))

split-dotted :
    (ip : Ipv4)
    → split b'.' (dotted ip)
      ≡ to_decimal ip.a ∷ to_decimal ip.b ∷ to_decimal ip.c ∷ to_decimal ip.d ∷ []
split-dotted ip = rw (
  split_part b'.' (to_decimal ip.a) _ (avoids ip.a),
  split_part b'.' (to_decimal ip.b) _ (avoids ip.b),
  split_part b'.' (to_decimal ip.c) _ (avoids ip.c),
  split_last b'.' (to_decimal ip.d) (avoids ip.d),
)
  where
    avoids : (v : ℕ) → Avoids b'.' (to_decimal v)
    avoids v = Digits-Avoids b'.' (to_decimal v) (omega arith) (to_decimal-Digits v)

-- An address in the usual form is read back.
pub parse_ipv4-dotted : (ip : Ipv4) → IsAddress ip → parse_ipv4 (dotted ip) ≡ some ip
unfolding parse_ipv4 no_more
parse_ipv4-dotted ip h = rw (
  split-dotted ip,
  next_octet-to_decimal ip.a _ h.a_lt,
  next_octet-to_decimal ip.b _ h.b_lt,
  next_octet-to_decimal ip.c _ h.c_lt,
  next_octet-to_decimal ip.d _ h.d_lt,
)
