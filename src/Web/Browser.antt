-- ===== src/Web/Browser.antt =====
-- An independent description of what a browser does with the pages of src/web.rs: which fields a form
-- has, and how the form is sent. (Attributes stand in single quotes, as in these pages.)
pub mod Encoded
pub mod Cookies
use jzf407_rust.Prelude.{
  ℕ, zero, suc, ◌+◌, ◌-◌, ◌/◌, ◌%◌, Bool, true, false, ◌&&◌, ◌||◌, Option, none, some, List, [],
  ◌∷◌, ◌++◌, Bytes, bytes_eq, is_some, leb, ltb, ◌==◌, if◌then◌else◌,
}
use jzf407_rust.Text.{codes}
use jzf407_rust.WebForm.Escape.Entities.{starts, unescape}
use jzf407_rust.Text.Split.{after_first, strip_prefix, join}

-- The name and the value of an input.
abbrev pub Field : Type 0
Field = Bytes × Bytes

-- The bytes in front of the first `stop`.
unfoldable pub until : ℕ → Bytes → Bytes
until stop [] = []
until stop (b ∷ s) = let rest = until stop s in if b == stop then [] else b ∷ rest

-- The tag that begins at a byte, if one does: what stands between `<` and `>`.
unfoldable pub tag_at : ℕ → Bytes → Bytes
unfolding until
tag_at b s = if b == b'<' then until b'>' s else []

abbrev quoted : Option Bytes → Bytes
quoted none = []
quoted (some v) = until b'\'' v

unfoldable pub attribute : Bytes → Bytes → Bytes
attribute name tag = quoted (after_first (name ++ codes "='") tag)

-- Whether the form that is sent to `action` is open behind a tag.
unfoldable pub opened : Bytes → Bool → Bytes → Bool
opened action inside tag =
    if bytes_eq tag (codes "form method='post' action='" ++ action ++ b'\'' ∷ [])
    then true
    else (if bytes_eq tag (codes "/form") then false else inside)

-- The value of a text input or a password input loses its line breaks.
unfoldable pub strip_newlines : Bytes → Bytes
strip_newlines [] = []
strip_newlines (b ∷ s) =
    let rest = strip_newlines s in if b == b'\r' || b == b'\n' then rest else b ∷ rest

unfoldable pub field_of : Bool → Bytes → List Field → List Field
unfolding attribute
field_of inside tag later =
    if inside && starts (codes "input ") tag
    then (attribute (codes "name") tag, strip_newlines (unescape (attribute (codes "value") tag)))
      ∷ later
    else later

-- The fields of the form that is sent to `action`, each with the value that it shows at first.
unfoldable pub form_fields : Bytes → Bool → Bytes → List Field
unfolding tag_at opened field_of
form_fields action inside [] = []
form_fields action inside (b ∷ s) =
    let tag = tag_at b s in field_of inside tag (form_fields action (opened action inside tag) s)

abbrev pub in_range : ℕ → ℕ → ℕ → Bool
in_range lo hi b = leb lo b && leb b hi

-- The bytes that are sent as they are.
abbrev pub is_literal : ℕ → Bool
is_literal b =
    in_range b'0' b'9' b
    || in_range b'a' b'z' b
    || in_range b'A' b'Z' b
    || b == b'*'
    || b == b'-'
    || b == b'.'
    || b == b'_'

abbrev pub hex_char : ℕ → ℕ
hex_char v = if ltb v 10 then b'0' + v else b'A' + (v - 10)

unfoldable pub encode_byte : ℕ → Bytes
encode_byte b =
    if is_literal b
    then b ∷ []
    else (if b == b' ' then b'+' ∷ [] else b'%' ∷ hex_char (b / 16) ∷ hex_char (b % 16) ∷ [])

-- `application/x-www-form-urlencoded`
unfoldable pub form_encode : Bytes → Bytes
unfolding encode_byte
form_encode [] = []
form_encode (b ∷ s) = encode_byte b ++ form_encode s

unfoldable pub encode_field : Field → Bytes
encode_field (name, val) = form_encode name ++ (b'=' ∷ form_encode val)

unfoldable pub encode_fields : List Field → List Bytes
encode_fields [] = []
encode_fields (f ∷ fs) = encode_field f ∷ encode_fields fs

-- The body of the request that the form makes.
unfoldable pub form_body : List Field → Bytes
form_body fields = join b'&' (encode_fields fields)
