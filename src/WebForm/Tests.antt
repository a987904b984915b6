-- ===== src/WebForm/Tests.antt =====
-- Runs of the form helpers, and their theorems at concrete texts.
use jzf407_rust.Prelude.{◌≡◌, ◌↔◌, refl, bytes_eq, contains}
use jzf407_rust.Text.{codes}
use jzf407_rust.Text.Utf8.{IsField, valid_utf8, chars}
use jzf407_rust.WebForm.{ok, err, capacity, invalid_encoding, form_url_decode, html_escape_attr}
use jzf407_rust.WebForm.Encoding.{Encodes}
use jzf407_rust.WebForm.Decode.{form_url_decode_iff}

decode_words : form_url_decode 16 (codes "a+b%2F%41") ≡ ok (codes "a b/A")
unfolding form_url_decode contains valid_utf8
decode_words = refl

decode_nul : form_url_decode 16 (codes "a%00") ≡ err invalid_encoding
unfolding form_url_decode contains valid_utf8
decode_nul = refl

decode_cut : form_url_decode 16 (codes "a%4") ≡ err invalid_encoding
unfolding form_url_decode
decode_cut = refl

decode_long : form_url_decode 2 (codes "abc") ≡ err capacity
unfolding form_url_decode
decode_long = refl

form_url_decode_iff_example :
    (form_url_decode 16 (codes "a+b") ≡ ok (codes "a b"))
    ↔ (Encodes (codes "a+b") (codes "a b") × IsField 16 (codes "a b"))
form_url_decode_iff_example = form_url_decode_iff 16 (codes "a+b") (codes "a b")

escape_tag : html_escape_attr 16 (codes "<a>") ≡ ok (codes "&lt;a&gt;")
unfolding html_escape_attr chars bytes_eq
escape_tag = refl
