-- ===== src/Web/Page/Scanned.antt =====
-- How a browser goes through the parts of a page.
use jzf407_rust.Prelude.{
  All-map, ◌≤◌, ℕ, ◌≡◌, ◌≢◌, refl, ap, ◌∙◌, Bool, true, false, List, [], ◌∷◌, ◌++◌, Bytes, All,
  bytes_eq, arith, ◌==◌,
}
use jzf407_rust.Text.{codes}
use jzf407_rust.Text.Utf8.{concat}
use jzf407_rust.Text.Split.{strip_prefix}
use jzf407_rust.WebForm.Escape.{IsInert}
use jzf407_rust.WebForm.Escape.Entities.{unescape, unescape_plain}
use jzf407_rust.Web.Browser.{Field, strip_newlines, until, tag_at, opened, field_of, form_fields}
use jzf407_rust.Web.Page.Printed.{Numeric}

-- The fields of the form that is sent to `/save`.
abbrev pub save_fields : Bool → Bytes → List Field
save_fields = form_fields (codes "/save")

-- A part of the page that no field of the form is in.
abbrev pub Skips : Bool → Bytes → Type 0
Skips inside part = (t : Bytes) → save_fields inside (part ++ t) ≡ save_fields inside t

-- Parts that are skipped, in front of others.
pub skipped :
    (inside : Bool) (parts others : List Bytes)
    → All (Skips inside) parts
    → save_fields inside (concat (parts ++ others)) ≡ save_fields inside (concat others)
unfolding concat
skipped inside [] others h = refl
skipped inside (part ∷ parts) others h =
    h.0 (concat (parts ++ others)) ∙ skipped inside parts others h.1

save_fields_cons :
    (inside : Bool) (b : ℕ) (s : Bytes)
    → b ≢ b'<'
    → save_fields inside (b ∷ s) ≡ save_fields inside s
unfolding form_fields tag_at opened field_of bytes_eq strip_prefix
save_fields_cons true b s h = let other : (b == b'<') ≡ false = ground arith in rw other
save_fields_cons false b s h = let other : (b == b'<') ≡ false = ground arith in rw other

pub inert-Skips : (inside : Bool) (s : Bytes) → All IsInert s → Skips inside s
inert-Skips inside [] h t = refl
inert-Skips inside (b ∷ s) h t =
    save_fields_cons inside b (s ++ t) h.0.0 ∙ inert-Skips inside s h.1 t

until-inert :
    (s t : Bytes)
    → All IsInert s
    → until b'\'' (until b'>' (s ++ t)) ≡ s ++ until b'\'' (until b'>' t)
unfolding until
until-inert [] t h = refl
until-inert (b ∷ s) t h =
    let tag : (b == b'>') ≡ false = ground arith in
    let quote : (b == b'\'') ≡ false = ground arith in
    rw (tag, quote) (ap (◌∷◌ b) (until-inert s t h.1))

append_empty : (s t : Bytes) → t ≡ [] → s ++ t ≡ s
append_empty [] t h = h
append_empty (b ∷ s) t h = ap (◌∷◌ b) (append_empty s t h)

-- An input whose value is `v`, between what stands in front of it and what follows.
pub input_shown :
    (inside : Bool) (front v name next : Bytes) (others : List Bytes) (fields : List Field)
    → ((t : Bytes)
        → save_fields inside (front ++ t)
          ≡ (name, strip_newlines (unescape (until b'\'' (until b'>' t)))) ∷ save_fields true t)
    → All IsInert v
    → until b'\'' (until b'>' (concat (next ∷ others))) ≡ []
    → save_fields true (concat (next ∷ others)) ≡ fields
    → save_fields inside (concat (front ∷ v ∷ next ∷ others))
      ≡ (name, strip_newlines (unescape v)) ∷ fields
unfolding concat
input_shown inside front v name next others fields reads h stops later =
    let rest = next ++ concat others in
    reads (v ++ rest)
    ∙ rw (
      until-inert v rest h,
      append_empty v (until b'\'' (until b'>' rest)) stops,
      inert-Skips true v h rest,
      later,
    )

pub Numeric-IsInert : (s : Bytes) → Numeric s → All IsInert s
Numeric-IsInert s h =
    All-map (λ b. (46 ≤ b) × (b ≤ 57)) IsInert
      (λ b k. (omega (arith, k), omega (arith, k), omega (arith, k), omega (arith, k))) s h

no_entity : (s : Bytes) → Numeric s → All (λ b. b ≢ b'&') s
no_entity s h = All-map (λ b. (46 ≤ b) × (b ≤ 57)) (λ b. b ≢ b'&') (λ b k. omega (arith, k)) s h

-- A text of one line.
abbrev pub OneLine : Bytes → Type 0
OneLine = All (λ b. (b ≢ b'\r') × (b ≢ b'\n'))

pub strip_newlines-OneLine : (s : Bytes) → OneLine s → strip_newlines s ≡ s
unfolding strip_newlines
strip_newlines-OneLine [] h = refl
strip_newlines-OneLine (b ∷ s) h = ground (arith, h.0, strip_newlines-OneLine s h.1)

Numeric-OneLine : (s : Bytes) → Numeric s → OneLine s
Numeric-OneLine s h =
    All-map (λ b. (46 ≤ b) × (b ≤ 57)) (λ b. (b ≢ b'\r') × (b ≢ b'\n'))
      (λ b k. (omega (arith, k), omega (arith, k))) s h

-- A number is shown as it stands.
pub shown-Numeric : (s : Bytes) → Numeric s → strip_newlines (unescape s) ≡ s
shown-Numeric s h =
    ap strip_newlines (unescape_plain s (no_entity s h))
    ∙ strip_newlines-OneLine s (Numeric-OneLine s h)
