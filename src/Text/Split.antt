-- ===== src/Text/Split.antt =====
-- `str::split`, `splitn(2)`, `split_once`, `strip_prefix` and `find`, for ASCII patterns.
use jzf407_rust.Prelude.{
  ℕ, ◌≡◌, refl, Bool, Option, none, some, List, [], ◌∷◌, ◌++◌, Bytes, ◌==◌, if◌then◌else◌,
  unwrap_or, is_some, All, All-append, arith, ◌≢◌, ap, ◌∙◌,
}

-- A byte put in front of the first part.
abbrev onto_first : ℕ → List Bytes → List Bytes
onto_first b [] = (b ∷ []) ∷ []
onto_first b (p ∷ ps) = (b ∷ p) ∷ ps

-- `s.split(sep)`; there is always a first part.
unfoldable pub split : ℕ → Bytes → List Bytes
split sep [] = [] ∷ []
split sep (b ∷ rest) =
    let parts = split sep rest in if b == sep then [] ∷ parts else onto_first b parts

abbrev onto_front : ℕ → Option (Bytes × Bytes) → Option (Bytes × Bytes)
onto_front b none = none
onto_front b (some (front, back)) = some (b ∷ front, back)

-- `s.split_once(sep)`
unfoldable pub split_once : ℕ → Bytes → Option (Bytes × Bytes)
split_once sep [] = none
split_once sep (b ∷ rest) =
    let later = split_once sep rest in if b == sep then some ([], rest) else onto_front b later

-- The two parts of `s.splitn(2, sep)`, each with `unwrap_or("")`.
unfoldable pub key_value : ℕ → Bytes → Bytes × Bytes
unfolding split_once
key_value sep s = unwrap_or (split_once sep s) (s, [])

-- `s.strip_prefix(prefix)`
unfoldable pub strip_prefix : Bytes → Bytes → Option Bytes
strip_prefix [] s = some s
strip_prefix (p ∷ prefix) [] = none
strip_prefix (p ∷ prefix) (b ∷ s) =
    let later = strip_prefix prefix s in if b == p then later else none

-- What stands behind the first place where `pattern` occurs: `s.find(pattern)` and a slice.
unfoldable pub after_first : Bytes → Bytes → Option Bytes
unfolding strip_prefix
after_first pattern [] = strip_prefix pattern []
after_first pattern (b ∷ s) =
    let later = after_first pattern s in
    elim (strip_prefix pattern (b ∷ s)) [ some rest ↦ some rest | none ↦ later ]

-- `s.contains(pattern)`
unfoldable pub contains_text : Bytes → Bytes → Bool
unfolding after_first
contains_text pattern s = is_some (after_first pattern s)

-- `parts` with `sep` between them.
abbrev pub join : ℕ → List Bytes → Bytes
join sep [] = []
join sep (p ∷ []) = p
join sep (p ∷ q ∷ ps) = p ++ (sep ∷ join sep (q ∷ ps))

-- No byte is the separator.
abbrev pub Avoids : ℕ → Bytes → Type 0
Avoids sep = All (λ b. b ≢ sep)

pub split_part :
    (sep : ℕ) (p rest : Bytes) → Avoids sep p → split sep (p ++ (sep ∷ rest)) ≡ p ∷ split sep rest
unfolding split
split_part sep [] rest h = ground arith
split_part sep (b ∷ p) rest h = ground (arith, split_part sep p rest h.1)

pub split_last : (sep : ℕ) (p : Bytes) → Avoids sep p → split sep p ≡ p ∷ []
unfolding split
split_last sep [] h = refl
split_last sep (b ∷ p) h = ground (arith, split_last sep p h.1)

-- Joined parts are split again.
pub split-join :
    (sep : ℕ) (p : Bytes) (ps : List Bytes)
    → All (Avoids sep) (p ∷ ps)
    → split sep (join sep (p ∷ ps)) ≡ p ∷ ps
split-join sep p [] h = split_last sep p h.0
split-join sep p (q ∷ ps) h =
    split_part sep p (join sep (q ∷ ps)) h.0 ∙ ap (◌∷◌ p) (split-join sep q ps h.1)

pub join-Avoids :
    (sep b : ℕ) (ps : List Bytes) → b ≢ sep → All (Avoids sep) ps → Avoids sep (join b ps)
join-Avoids sep b [] n h = tt
join-Avoids sep b (p ∷ []) n h = h.0
join-Avoids sep b (p ∷ q ∷ ps) n h =
    All-append (λ c. c ≢ sep) p (b ∷ join b (q ∷ ps)) h.0 (n, join-Avoids sep b (q ∷ ps) n h.1)
