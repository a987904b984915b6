-- ===== src/NetConfig/RoundTrip.antt =====
-- Reading an image back: `from_bytes` after `to_bytes`.
use jzf407_rust.Prelude.{
  ℕ, zero, suc, ◌+◌, ◌≤◌, ◌≡◌, inl, inr, bytes_eq_iff, refl, ap, ◌∙◌, true, false, Option, none,
  some, [], ◌∷◌, ◌++◌, Bytes, length, take, drop, slice, padded, length-padded, arith, contains,
  leb, ltb, ◌==◌, unwrap_or, ◌>>=◌, Bool-cases, le→leb, bytes_eq,
}
use jzf407_rust.Text.Utf8.{IsField, from_utf8}
use jzf407_rust.NetConfig.{
  NetworkConfig, magic, cred_max, position, until_nul, read_str, from_bytes, port_at, fit, len,
  byte, address,
}

unwrap_suc :
    (o : Option ℕ) (n : ℕ) → unwrap_or (o >>= λ i. some (suc i)) (suc n) ≡ suc (unwrap_or o n)
unwrap_suc none n = refl
unwrap_suc (some i) n = refl

-- A text without NUL is what stands in its field before the first NUL.
position-padded :
    (n : ℕ) (s : Bytes)
    → length s ≤ n
    → contains 0 s ≡ false
    → take (unwrap_or (position (padded n s)) n) (padded n s) ≡ s
unfolding position contains
position-padded zero [] h c = refl
position-padded zero (x ∷ s) h c = absurd (omega arith)
position-padded (suc n) [] h c = refl
position-padded (suc n) (x ∷ s) h c = elim (Bool-cases (x == 0)) [
  | inl e ↦ cc (rw (e, contains) at c)
  | inr e ↦
      rw (e, unwrap_suc (position (padded n s)) n)
        (ap (◌∷◌ x) (position-padded n s (omega arith) (ground arith)))
]

module _ (n : ℕ) (s : Bytes) (f : IsField n s) where
  until_nul-padded : until_nul n (padded n s) ≡ s
  until_nul-padded = position-padded n s f.fits f.no_nul

  pub from_utf8-field : from_utf8 (until_nul n (padded n s)) ≡ some s
  from_utf8-field = rw (until_nul-padded, f.utf8)

  fit-field : fit n s ≡ some s
  fit-field = rw (le→leb _ _ f.fits)

  pub read_str-padded : read_str n (padded n s) ≡ s
  unfolding read_str
  read_str-padded = rw (length-padded n s, from_utf8-field, fit-field) refl

pub drop-append_add :
    (n k : ℕ) (xs ys : Bytes) → length xs ≡ n → drop (n + k) (xs ++ ys) ≡ drop k ys
drop-append_add zero k [] ys e = let z : 0 + k ≡ k = omega arith in ap (λ (t : ℕ). drop t ys) z
drop-append_add zero k (x ∷ xs) ys e = absurd (omega arith)
drop-append_add (suc n) k [] ys e = absurd (omega arith)
drop-append_add (suc n) k (x ∷ xs) ys e =
    let z : suc n + k ≡ suc (n + k) = omega arith in
    ap (λ (t : ℕ). drop t (x ∷ (xs ++ ys))) z ∙ drop-append_add n k xs ys (omega arith)

le→ltb-false : (a b : ℕ) → b ≤ a → ltb a b ≡ false
le→ltb-false a b h = ground arith

pos→==-false : (a : ℕ) → 1 ≤ a → (a == 0) ≡ false
pos→==-false a h = ground arith

-- The configuration that an image with all checks passed gives.
abbrev pub reading : Bytes → Bytes → NetworkConfig
reading b id = record {
  ip = address b 4;
  prefix_len = byte b 8;
  gateway = address b 12;
  broker_ip = address b 16;
  broker_port = port_at b;
  client_id = id;
  mqtt_user = read_str cred_max (slice b 47 79);
  mqtt_pass = read_str cred_max (slice b 79 111);
  web_user = read_str cred_max (slice b 111 143);
  web_pass = read_str cred_max (slice b 143 175);
}

-- The checks of `from_bytes`.
pub record Passes (b id : Bytes) : Type 0 where
  pub long : len ≤ length b
  pub magic_ok : slice b 0 4 ≡ magic
  pub prefix_pos : 1 ≤ byte b 8
  pub prefix_le : byte b 8 ≤ 32
  pub port_pos : 1 ≤ port_at b
  pub id_text : from_utf8 (until_nul 24 (slice b 23 47)) ≡ some id
  pub id_fits : length id ≤ 24

pub Passes-reading : (b id : Bytes) → Passes b id → from_bytes b ≡ some (reading b id)
unfolding from_bytes
Passes-reading b id h =
    let e₁ : ltb (length b) len ≡ false = le→ltb-false (length b) len h.long in
    let e₂ : bytes_eq (slice b 0 4) magic ≡ true = (bytes_eq_iff _ _).1 h.magic_ok in
    let e₃ : leb 1 (byte b 8) ≡ true = le→leb 1 (byte b 8) h.prefix_pos in
    let e₄ : leb (byte b 8) 32 ≡ true = le→leb (byte b 8) 32 h.prefix_le in
    let e₅ : (port_at b == 0) ≡ false = pos→==-false (port_at b) h.port_pos in
    rw (e₁, e₂, e₃, e₄, e₅, h.id_text, le→leb (length id) 24 h.id_fits) refl
