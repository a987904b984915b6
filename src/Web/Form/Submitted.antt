-- ===== src/Web/Form/Submitted.antt =====
-- What the server reads from a form that a browser submits.
use jzf407_rust.Prelude.{
  All-map, ◌≤◌, ◌<◌, ℕ, ◌≡◌, ◌≢◌, some, List, [], ◌∷◌, ◌++◌, Bytes, All, All-append, AreBytes,
  arith,
}
use jzf407_rust.Text.Utf8.{IsField, trim}
use jzf407_rust.Text.Utf8.Trim.{Printable, trim-Printable}
use jzf407_rust.Text.Utf8.Range.{valid_utf8-AreBytes}
use jzf407_rust.Text.Split.{Avoids, split, split-join, split_once, key_value}
use jzf407_rust.WebForm.{ok, form_url_decode}
use jzf407_rust.WebForm.Decode.{form_url_decode_iff}
use jzf407_rust.NetConfig.{NetworkConfig}
use jzf407_rust.Web.Form.{set_field, form_step}
use jzf407_rust.Web.Browser.{Field, form_encode, encode_field, encode_fields, form_body}
use jzf407_rust.Web.Browser.Encoded.{Sent, form_encode-Sent, form_encode-Encodes}

Sent-Printable : (s : Bytes) → All Sent s → Printable s
Sent-Printable s h = All-map Sent (λ b. (33 ≤ b) × (b < 0x80)) (λ b k. (k.0, k.1)) s h

Sent-no_amp : (s : Bytes) → All Sent s → Avoids b'&' s
Sent-no_amp s h = All-map Sent (λ b. b ≢ b'&') (λ b k. k.2) s h

Sent-no_eq : (s : Bytes) → All Sent s → Avoids b'=' s
Sent-no_eq s h = All-map Sent (λ b. b ≢ b'=') (λ b k. k.3) s h

split_once_front :
    (sep : ℕ) (p rest : Bytes) → Avoids sep p → split_once sep (p ++ (sep ∷ rest)) ≡ some (p, rest)
unfolding split_once
split_once_front sep [] rest h = ground arith
split_once_front sep (b ∷ p) rest h = ground (arith, split_once_front sep p rest h.1)

pub key_value_field :
    (name val : Bytes)
    → AreBytes name
    → key_value b'=' (encode_field (name, val)) ≡ (form_encode name, form_encode val)
unfolding key_value encode_field
key_value_field name val h = rw (
    split_once_front b'=' (form_encode name) (form_encode val)
      (Sent-no_eq (form_encode name) (form_encode-Sent name h)))

encode_field-no_amp :
    (name val : Bytes) → AreBytes name → AreBytes val → Avoids b'&' (encode_field (name, val))
unfolding encode_field
encode_field-no_amp name val h k =
    All-append (λ b. b ≢ b'&') (form_encode name) (b'=' ∷ form_encode val)
      (Sent-no_amp (form_encode name) (form_encode-Sent name h))
      (omega arith, Sent-no_amp (form_encode val) (form_encode-Sent val k))

-- The names and values of fields are bytes.
abbrev pub PlainFields : List Field → Type 0
PlainFields = All (λ f. AreBytes f.0 × AreBytes f.1)

fields-Avoids : (fs : List Field) → PlainFields fs → All (Avoids b'&') (encode_fields fs)
unfolding encode_fields
fields-Avoids [] h = tt
fields-Avoids (f ∷ fs) h = (encode_field-no_amp f.0 f.1 h.0.0 h.0.1, fields-Avoids fs h.1)

pub split_body :
    (f : Field) (fs : List Field)
    → PlainFields (f ∷ fs)
    → split b'&' (form_body (f ∷ fs)) ≡ encode_fields (f ∷ fs)
unfolding form_body encode_fields
split_body f fs h = split-join b'&' (encode_field f) (encode_fields fs) (fields-Avoids (f ∷ fs) h)

pub decode_sent : (val : Bytes) → IsField 64 val → form_url_decode 64 (form_encode val) ≡ ok val
decode_sent val f =
    (form_url_decode_iff 64 (form_encode val) val).1
      (form_encode-Encodes val (valid_utf8-AreBytes val f.utf8), f)

trim_sent : (s : Bytes) → AreBytes s → trim (form_encode s) ≡ form_encode s
trim_sent s h =
    trim-Printable (form_encode s) (Sent-Printable (form_encode s) (form_encode-Sent s h))

-- One pair of the body sets the field of its name, if the name is sent as it is.
pub form_step-encode_field :
    (current cfg : NetworkConfig) (name val : Bytes)
    → form_encode name ≡ name
    → AreBytes name
    → IsField 64 val
    → form_step current (encode_field (name, val)) cfg ≡ set_field current name val cfg
unfolding form_step
form_step-encode_field current cfg name val same h f = rw (
  key_value_field name val h,
  trim_sent val (valid_utf8-AreBytes val f.utf8),
  trim_sent name h,
  decode_sent val f,
  same,
)
