-- ===== src/Text/Utf8/Range.antt =====
-- The bytes of valid UTF-8 are bytes, and texts of printable ASCII may stand in a field.
use jzf407_rust.Prelude.{
  All-map, ℕ, zero, suc, ◌≤◌, ◌<◌, ◌≡◌, refl, inl, inr, true, false, [], ◌∷◌, Bytes, All, AreBytes,
  length, contains, arith, Option-cases, some,
}
use jzf407_rust.Text.Utf8.{lead, utf8, valid_utf8, ascii-valid_utf8, IsField}
use jzf407_rust.Text.Decimal.{Digits}
use jzf407_rust.Text.Utf8.Trim.{Printable}

lead_bounded : (b need lo hi : ℕ) → lead b ≡ some (need, lo, hi) → (b < 256) × (hi < 256)
unfolding lead
lead_bounded b need lo hi h = ground arith

utf8-AreBytes : (s : Bytes) (need lo hi : ℕ) → hi < 256 → utf8 need lo hi s ≡ true → AreBytes s
unfolding utf8
utf8-AreBytes [] need lo hi h e = tt
utf8-AreBytes (b ∷ s) zero lo hi h e = elim (Option-cases (lead b)) [
  | inl k ↦ cc (rw (k, utf8) at e)
  | inr ((need, lo', hi'), k) ↦
      let (small, high) = lead_bounded b need lo' hi' k in
      (small, utf8-AreBytes s need lo' hi' high (rw (k, utf8) at e))
]
utf8-AreBytes (b ∷ s) (suc need) lo hi h e =
    (ground arith, utf8-AreBytes s need 0x80 0xbf (omega arith) (ground arith))

pub valid_utf8-AreBytes : (s : Bytes) → valid_utf8 s ≡ true → AreBytes s
unfolding valid_utf8
valid_utf8-AreBytes s e = utf8-AreBytes s 0 0x80 0xbf (omega arith) e

pub Printable-ascii : (s : Bytes) → Printable s → All (λ b. b < 0x80) s
Printable-ascii s h = All-map (λ b. (33 ≤ b) × (b < 0x80)) (λ b. b < 0x80) (λ b k. k.1) s h

pub Digits-Printable : (s : Bytes) → Digits s → Printable s
Digits-Printable s h =
    All-map (λ c. (b'0' ≤ c) × (c ≤ b'9')) (λ b. (33 ≤ b) × (b < 0x80))
      (λ c k. (omega (arith, k), omega (arith, k))) s h

Printable-no_nul : (s : Bytes) → Printable s → contains 0 s ≡ false
unfolding contains
Printable-no_nul [] h = refl
Printable-no_nul (b ∷ s) h = let rest = Printable-no_nul s h.1 in ground arith

pub Printable-IsField : (n : ℕ) (s : Bytes) → Printable s → length s ≤ n → IsField n s
Printable-IsField n s h fit = record {
  fits = fit;
  no_nul = Printable-no_nul s h;
  utf8 = ascii-valid_utf8 s (Printable-ascii s h);
}
