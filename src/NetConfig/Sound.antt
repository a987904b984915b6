-- ===== src/NetConfig/Sound.antt =====
-- Whatever `from_bytes` accepts is a valid configuration.
use jzf407_rust.Prelude.{
  ℕ, zero, suc, ◌+◌, ◌*◌, ◌%◌, ◌^◌, ◌≤◌, ◌<◌, ◌≡◌, refl, sym, ap, ◌∙◌, inl, inr, subst, bit_or,
  bit_or_256, true, false, none, some, [], ◌∷◌, Bytes, length, take, slice, contains, leb, leb→le,
  Bool-cases, Option-cases, arith, AreBytes,
}
use jzf407_rust.Text.Utf8.{valid_utf8, from_utf8, IsField, nil_IsField}
use jzf407_rust.NetConfig.{
  NetworkConfig, address, byte, cred_max, position, until_nul, read_str, fit, from_bytes,
}
use jzf407_rust.NetConfig.Valid.{IsAddress, IsValid}
use jzf407_rust.NetConfig.RoundTrip.{Passes, reading}
use jzf407_rust.NetConfig.Accepts.{from_bytes_iff}

contains-take : (k : ℕ) (s : Bytes) → contains 0 s ≡ false → contains 0 (take k s) ≡ false
unfolding contains
contains-take zero s h = refl
contains-take (suc k) [] h = refl
contains-take (suc k) (x ∷ s) h = ground (arith, contains-take k s)

position-none : (s : Bytes) → position s ≡ none → contains 0 s ≡ false
unfolding position contains
position-none [] h = refl
position-none (x ∷ s) h = ground (arith, position-none s)

position-some : (s : Bytes) (i : ℕ) → position s ≡ some i → contains 0 (take i s) ≡ false
unfolding position contains
position-some [] i h = cc
position-some (x ∷ s) zero h = refl
position-some (x ∷ s) (suc i) h = ground (arith, position-some s i)

-- What stands before the first NUL holds none.
until_nul_clean : (whole : ℕ) (s : Bytes) → contains 0 (until_nul whole s) ≡ false
until_nul_clean whole s = elim (Option-cases (position s)) [
  | inl e ↦ rw e (contains-take whole s (position-none s e))
  | inr (i, e) ↦ rw e (position-some s i e)
]

from_utf8-ok : (s t : Bytes) → from_utf8 s ≡ some t → (s ≡ t) × (valid_utf8 s ≡ true)
from_utf8-ok s t h = ground arith

fit-ok : (n : ℕ) (s t : Bytes) → fit n s ≡ some t → (s ≡ t) × (length s ≤ n)
fit-ok n s t h = ground arith

-- A slot is read as a text that it can hold, if only the empty one.
read_str-IsField : (n : ℕ) (slot : Bytes) → IsField n (read_str n slot)
unfolding read_str
read_str-IsField n slot = elim (Bool-cases (valid_utf8 u)) [
  | inl v ↦ elim (Bool-cases (leb (length u) n)) [
    | inl f ↦
        rw (v, f)
          (record {
            fits = leb→le (length u) n f;
            no_nul = until_nul_clean (length slot) slot;
            utf8 = v;
          })
    | inr f ↦ rw (v, f) (nil_IsField n)
  ]
  | inr v ↦ rw v (nil_IsField n)
]
  where
    u : Bytes
    u = until_nul (length slot) slot

byte-lt : (b : Bytes) (i : ℕ) → AreBytes b → byte b i < 256
byte-lt [] i h = omega arith
byte-lt (x ∷ b) zero h = h.0
byte-lt (x ∷ b) (suc i) h = byte-lt b i h.1

port-lt : (x y : ℕ) → x < 256 → y < 256 → bit_or (x * 2 ^ 8 % 2 ^ 16) y < 65536
port-lt x y hx hy =
    let same : x * 2 ^ 8 % 2 ^ 16 ≡ x * 256 = omega arith in
    let whole : bit_or (x * 2 ^ 8 % 2 ^ 16) y ≡ x * 256 + y =
      ap (λ (t : ℕ). bit_or t y) same ∙ bit_or_256 x y hx hy in
    omega arith

module _ (b : Bytes) (h : AreBytes b) where
  address-IsAddress : (i : ℕ) → IsAddress (address b i)
  address-IsAddress i = record {
    a_lt = byte-lt b i h;
    b_lt = byte-lt b (suc i) h;
    c_lt = byte-lt b (suc (suc i)) h;
    d_lt = byte-lt b (suc (suc (suc i))) h;
  }

  id-IsField : (id : Bytes) → Passes b id → IsField 24 id
  id-IsField id p =
      let (same, v) = from_utf8-ok (until_nul 24 (slice b 23 47)) id p.id_text in
      record {
        fits = p.id_fits;
        no_nul = subst (λ t. contains 0 t ≡ false) same (until_nul_clean 24 (slice b 23 47));
        utf8 = subst (λ t. valid_utf8 t ≡ true) same v;
      }

  reading-IsValid : (id : Bytes) → Passes b id → IsValid (reading b id)
  reading-IsValid id p = record {
    ip = address-IsAddress 4;
    gateway = address-IsAddress 12;
    broker_ip = address-IsAddress 16;
    prefix_pos = p.prefix_pos;
    prefix_le = p.prefix_le;
    port_pos = p.port_pos;
    port_lt = port-lt (byte b 20) (byte b 21) (byte-lt b 20 h) (byte-lt b 21 h);
    client_id = id-IsField id p;
    mqtt_user = read_str-IsField cred_max (slice b 47 79);
    mqtt_pass = read_str-IsField cred_max (slice b 79 111);
    web_user = read_str-IsField cred_max (slice b 111 143);
    web_pass = read_str-IsField cred_max (slice b 143 175);
  }

  -- Every configuration that `from_bytes` makes out of bytes is valid: its prefix length is in 1..=32 and its
  -- port is not 0, its numbers fit their types, and its texts fit their fields, are valid UTF-8
  -- and hold no NUL.
  pub from_bytes-IsValid : (cfg : NetworkConfig) → from_bytes b ≡ some cfg → IsValid cfg
  from_bytes-IsValid cfg e =
      let (id, p, same) = (from_bytes_iff b cfg).0 e in
      subst IsValid (sym same) (reading-IsValid id p)
