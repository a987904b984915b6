-- ===== src/NetConfig/Accepts.antt =====
-- Which images `from_bytes` accepts, and that it never gives a configuration that is not valid.
use jzf407_rust.Prelude.{
  ℕ, ◌≤◌, ◌≡◌, ◌↔◌, sym, ap, ◌∙◌, inl, inr, Bool, true, false, ◌&&◌, some, some_inj, Bytes, length,
  slice, bytes_eq, bytes_eq_iff, leb, ltb, leb→le, ◌==◌, Bool-cases, arith,
}
use jzf407_rust.Text.Utf8.{valid_utf8}
use jzf407_rust.NetConfig.{NetworkConfig, byte, port_at, magic, len, until_nul, from_bytes}
use jzf407_rust.NetConfig.RoundTrip.{Passes, reading, Passes-reading}

ltb-false : (a b : ℕ) → ltb a b ≡ false → b ≤ a
ltb-false a b h = ground arith

==-false-pos : (a : ℕ) → (a == 0) ≡ false → 1 ≤ a
==-false-pos a h = ground arith

range : (p : ℕ) → (leb 1 p && leb p 32) ≡ true → (1 ≤ p) × (p ≤ 32)
range p h = ground arith

module _ (b : Bytes) (cfg : NetworkConfig) (e : from_bytes b ≡ some cfg) where
  long : ltb (length b) len ≡ false
  unfolding from_bytes
  long = elim (Bool-cases (ltb (length b) len)) [ inl t ↦ cc (rw (t, from_bytes) at e) | inr g ↦ g ]

  magic_ok : bytes_eq (slice b 0 4) magic ≡ true
  unfolding from_bytes
  magic_ok = elim (Bool-cases (bytes_eq (slice b 0 4) magic)) [
    | inl g ↦ g
    | inr t ↦ cc (rw (long, t, from_bytes) at e)
  ]

  abbrev in_range : Bool
  in_range = leb 1 (byte b 8) && leb (byte b 8) 32

  prefix_ok : in_range ≡ true
  unfolding from_bytes
  prefix_ok = elim (Bool-cases in_range) [
    | inl g ↦ g
    | inr t ↦ cc (rw (long, magic_ok, t, from_bytes) at e)
  ]

  port_ok : (port_at b == 0) ≡ false
  unfolding from_bytes
  port_ok = elim (Bool-cases (port_at b == 0)) [
    | inl t ↦ cc (rw (long, magic_ok, prefix_ok, t, from_bytes) at e)
    | inr g ↦ g
  ]

  abbrev id_bytes : Bytes
  id_bytes = until_nul 24 (slice b 23 47)

  id_ok : valid_utf8 id_bytes ≡ true
  unfolding from_bytes
  id_ok = elim (Bool-cases (valid_utf8 id_bytes)) [
    | inl g ↦ g
    | inr t ↦ cc (rw (long, magic_ok, prefix_ok, port_ok, t, from_bytes) at e)
  ]

  id_fits : leb (length id_bytes) 24 ≡ true
  unfolding from_bytes
  id_fits = elim (Bool-cases (leb (length id_bytes) 24)) [
    | inl g ↦ g
    | inr t ↦ cc (rw (long, magic_ok, prefix_ok, port_ok, id_ok, t, from_bytes) at e)
  ]

  image-Passes : Passes b id_bytes
  image-Passes = record {
    long = ltb-false (length b) len long;
    magic_ok = (bytes_eq_iff _ _).0 magic_ok;
    prefix_pos = (range (byte b 8) prefix_ok).0;
    prefix_le = (range (byte b 8) prefix_ok).1;
    port_pos = ==-false-pos (port_at b) port_ok;
    id_text = rw id_ok;
    id_fits = leb→le (length id_bytes) 24 id_fits;
  }

  reads_as : cfg ≡ reading b id_bytes
  reads_as = some_inj (sym e ∙ Passes-reading b id_bytes image-Passes)

-- An image is accepted exactly when it is long enough, starts with the magic bytes, has a prefix
-- length in 1..=32 and a port other than 0, and its client id is UTF-8 up to the first NUL; the
-- configuration is then the one that its bytes spell out.
pub from_bytes_iff :
    (b : Bytes) (cfg : NetworkConfig)
    → (from_bytes b ≡ some cfg) ↔ ((id : Bytes) × Passes b id × (cfg ≡ reading b id))
from_bytes_iff b cfg = (
  λ e. (id_bytes b cfg e, image-Passes b cfg e, reads_as b cfg e),
  λ h. Passes-reading b h.0 h.1 ∙ ap some (sym h.2),
)
