-- ===== src/Web/Form/Values.antt =====
-- What one value of a form may be.
use jzf407_rust.Prelude.{
  ℕ, ◌≡◌, refl, ap, subst, Bool, true, false, some, some_inj, [], ◌∷◌, Bytes, length, leb, leb→le,
  arith, if◌then◌else◌,
}
use jzf407_rust.Text.Utf8.{IsField}
use jzf407_rust.WebForm.{Result, ok, err, to_option, form_url_decode, secret_from_form}
use jzf407_rust.WebForm.Decode.{form_url_decode_iff}
use jzf407_rust.NetConfig.{fit}

pub either_way {ℓ ℓ'} :
    {A : Type ℓ} {P : Type ℓ'} (c : Bool) {x y r : A}
    → (if c then x else y) ≡ r
    → (c ≡ true → x ≡ r → P)
    → (y ≡ r → P)
    → P
either_way true e first second = first refl e
either_way false e first second = second e

pub fit-IsField : (n : ℕ) (s v : Bytes) → IsField 64 s → fit n s ≡ some v → IsField n v
fit-IsField n s v f e =
    either_way (leb (length s) n) {x = some s} e
      (λ short h.
        subst (IsField n) (some_inj h)
          (record { fits = leb→le _ _ short; no_nul = f.no_nul; utf8 = f.utf8 }))
      (λ h. cc)

pub secret-IsField :
    (n : ℕ) (current s v : Bytes)
    → IsField n current
    → IsField 64 s
    → to_option (secret_from_form n current s) ≡ some v
    → IsField n v
unfolding secret_from_form
secret-IsField n current [] v c f e = subst (IsField n) (some_inj e) c
secret-IsField n current (b ∷ rest) v c f e = fit-IsField n (b ∷ rest) v f (ground arith)

pub decoded-IsField : (s v : Bytes) → to_option (form_url_decode 64 s) ≡ some v → IsField 64 v
decoded-IsField s v e = ((form_url_decode_iff 64 s v).0 (ok_of (form_url_decode 64 s) e)).1
  where
    ok_of : (r : Result Bytes) → to_option r ≡ some v → r ≡ ok v
    ok_of (ok x) h = ap ok (some_inj h)
    ok_of (err p) h = cc
