-- ===== src/Debouncer/Tests.antt =====
-- Runs of the debouncer, and the theorems at concrete samples.
use jzf407_rust.Prelude.{◌≡◌, refl, Bool, true, false, some, List, [], ◌∷◌}
use jzf407_rust.Debouncer.{rising, new, update, state}
use jzf407_rust.Debouncer.History.{after, update-edge_between}

-- Newest first: a press of four samples after a bounce.
abbrev press : List Bool
press = true ∷ true ∷ true ∷ false ∷ true ∷ []

press_rises : (update (after false press) true).1 ≡ some rising
unfolding after new update
press_rises = refl

update-edge_between_example :
    (state (after false press) ≡ false) × ((update (after false press) true).1 ≡ some rising)
update-edge_between_example = update-edge_between false true press
