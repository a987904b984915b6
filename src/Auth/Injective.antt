-- ===== src/Auth/Injective.antt =====
-- What equal tokens say of the credentials behind them.
use jzf407_rust.Prelude.{
  ◌+◌, ◌≤◌, ◌≡◌, ◌≢◌, ◌↔◌, refl, sym, ap, ◌∙◌, [], ◌∷◌, ◌++◌, append_assoc, Bytes, All, All-append,
  AreBytes, length, length-append, le→leb, arith,
}
use jzf407_rust.Auth.{push_all, raw, basic_token}
use jzf407_rust.Auth.Base64.{decode, base64, decode-base64, encode-base64, length-base64}

-- `user:pass`
abbrev pub joined : Bytes → Bytes → Bytes
joined user pass = user ++ (b':' ∷ pass)

-- Credentials of bytes, short enough for their token to fit its 96 characters.
pub record IsShort (user pass : Bytes) : Type 0 where
  pub user_bytes : AreBytes user
  pub pass_bytes : AreBytes pass
  pub fits : length user + 1 + length pass ≤ 72

push_all_fits : (out s : Bytes) → length out + length s ≤ 96 → push_all out s ≡ out ++ s
unfolding push_all
push_all_fits out s h = rw (le→leb (length out + length s) 96 h)

raw-joined : (u p : Bytes) → length u + 1 + length p ≤ 96 → raw u p ≡ joined u p
unfolding raw
raw-joined u p h =
    let colon : length (u ++ b':' ∷ []) + length p ≤ 96 =
      omega (arith, length-append u (b':' ∷ [])) in
    rw
      (
        push_all_fits [] u (omega arith),
        push_all_fits u (b':' ∷ []) (omega arith),
        push_all_fits (u ++ b':' ∷ []) p colon,
      )
      (append_assoc u (b':' ∷ []) p)

module _ (u p : Bytes) (s : IsShort u p) where
  length-joined : length (joined u p) ≤ 72
  length-joined = omega (arith, length-append u (b':' ∷ p), s.fits)

  token-base64 : basic_token u p ≡ base64 (joined u p)
  unfolding basic_token
  token-base64 =
      rw (raw-joined u p (omega (arith, s.fits)))
        (encode-base64 [] (joined u p) (omega (arith, length-base64 (joined u p), length-joined)))

  token-decodes : decode (basic_token u p) ≡ joined u p
  token-decodes =
      ap decode token-base64
      ∙ decode-base64 (joined u p)
          (All-append _ u (b':' ∷ p) s.user_bytes (omega arith, s.pass_bytes))

-- Two tokens of short credentials agree exactly when the texts `user:pass` agree: the comparison
-- of tokens at a login is a comparison of these texts.
pub basic_token_iff :
    (u p u' p' : Bytes)
    → IsShort u p
    → IsShort u' p'
    → (basic_token u p ≡ basic_token u' p') ↔ (joined u p ≡ joined u' p')
basic_token_iff u p u' p' s s' = (
  λ e. sym (token-decodes u p s) ∙ ap decode e ∙ token-decodes u' p' s',
  λ e. token-base64 u p s ∙ ap base64 e ∙ sym (token-base64 u' p' s'),
)

-- No colon.
abbrev pub IsPlain : Bytes → Type 0
IsPlain = All (λ b. b ≢ b':')

joined_parts :
    (u p u' p' : Bytes) → IsPlain u → IsPlain u' → joined u p ≡ joined u' p' → (u ≡ u') × (p ≡ p')
joined_parts [] p [] p' h h' e = (refl, cc)
joined_parts [] p (y ∷ u') p' h h' e = absurd (h'.0 (cc))
joined_parts (x ∷ u) p [] p' h h' e = absurd (h.0 (cc))
joined_parts (x ∷ u) p (y ∷ u') p' h h' e =
    let (same, rest) = joined_parts u p u' p' h.1 h'.1 (cc) in (cc, rest)

-- For user names with no colon equal tokens come from equal names and equal passwords.
pub basic_token-injective :
    (u p u' p' : Bytes)
    → IsShort u p
    → IsShort u' p'
    → IsPlain u
    → IsPlain u'
    → basic_token u p ≡ basic_token u' p'
    → (u ≡ u') × (p ≡ p')
basic_token-injective u p u' p' s s' h h' e =
    joined_parts u p u' p' h h' ((basic_token_iff u p u' p' s s').0 e)
