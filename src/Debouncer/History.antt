-- ===== src/Debouncer/History.antt =====
-- The debouncer against its whole history of samples, which has no bits and no register.
use jzf407_rust.Prelude.{
  ℕ, zero, suc, ◌+◌, ◌*◌, ◌%◌, ◌<◌, ◌≡◌, ◌≢◌, refl, sym, ap, ◌∙◌, Bool, true, false, ◌&&◌, not,
  ◌==◌, Option, none, some, List, [], ◌∷◌, bit_and_15, bit_or_shifted, arith, if◌then◌else◌,
}
use jzf407_rust.Debouncer.{Debouncer, Edge, rising, falling, bit, new, update, state}

-- The debouncer after the samples `xs`, the newest first.
unfoldable pub after : Bool → List Bool → Debouncer
after initial [] = new initial
after initial (x ∷ xs) = (update (after initial xs) x).0

-- The k-th newest sample; those before the first count as the initial level.
abbrev pub sample : Bool → List Bool → ℕ → Bool
sample initial [] k = initial
sample initial (x ∷ xs) zero = x
sample initial (x ∷ xs) (suc k) = sample initial xs k

abbrev iff : Bool → Bool → Bool
iff true b = b
iff false b = not b

-- The four newest samples are all at level `level`.
abbrev pub four_at : Bool → Bool → List Bool → Bool
four_at level initial xs =
    iff level (sample initial xs 0)
    && iff level (sample initial xs 1)
    && iff level (sample initial xs 2)
    && iff level (sample initial xs 3)

-- The level that was last seen in four samples in a row.
abbrev pub settled : Bool → List Bool → Bool
settled initial [] = initial
settled initial (x ∷ xs) = if four_at x initial (x ∷ xs) then x else settled initial xs

-- What a change of level is reported as.
abbrev pub edge_between : Bool → Bool → Option Edge
edge_between false true = some rising
edge_between true false = some falling
edge_between true true = none
edge_between false false = none

abbrev window_of : Bool → List Bool → ℕ
window_of initial xs =
    bit (sample initial xs 3) * 8
    + bit (sample initial xs 2) * 4
    + bit (sample initial xs 1) * 2
    + bit (sample initial xs 0)

record Agrees (d : Debouncer) (initial : Bool) (xs : List Bool) : Type 0 where
  byte : d.history < 256
  window : d.history % 16 ≡ window_of initial xs
  level : d.stable ≡ settled initial xs

new-Agrees : (initial : Bool) → Agrees (new initial) initial []
unfolding new
new-Agrees true = record { byte = omega arith; window = refl; level = refl }
new-Agrees false = record { byte = omega arith; window = refl; level = refl }

bit_lt : (b : Bool) → bit b < 2
bit_lt b = ground arith

shift_window :
    (h : ℕ) (x : Bool) (initial : Bool) (xs : List Bool)
    → h < 256
    → h % 16 ≡ window_of initial xs
    → (h * 2 % 256 + bit x) % 16 ≡ window_of initial (x ∷ xs)
shift_window h x initial xs hb hw = omega (
  arith,
  bit_lt x,
  bit_lt (sample initial xs 0),
  bit_lt (sample initial xs 1),
  bit_lt (sample initial xs 2),
  bit_lt (sample initial xs 3),
)

-- The byte after one more sample.
abbrev shifted : Debouncer → Bool → ℕ
shifted d x = d.history * 2 % 256 + bit x

shifted_byte : (d : Debouncer) (x : Bool) → shifted d x < 256
shifted_byte d x = omega (arith, bit_lt x)

-- One update with `h` as the new byte, read off the window of the four newest samples.
abbrev step_of : ℕ → Bool → ℕ → Debouncer × Option Edge
step_of h level window =
    if window == 15 && not level
    then (record { history = h; stable = true }, some rising)
    else if window == 0 && level
    then (record { history = h; stable = false }, some falling)
    else (record { history = h; stable = level }, none)

update-step_of :
    (d : Debouncer) (x : Bool)
    → d.history < 256
    → update d x ≡ step_of (shifted d x) d.stable (shifted d x % 16)
unfolding update
update-step_of d x h =
    rw (bit_or_shifted d.history (bit x) h (bit_lt x), bit_and_15 (shifted d x) (shifted_byte d x))

-- Every pattern of four samples, at either level.
step_table :
    (h : ℕ) (level x p q r : Bool)
    → let next = if iff x x && iff x p && iff x q && iff x r then x else level in
      step_of h level (bit r * 8 + bit q * 4 + bit p * 2 + bit x)
      ≡ (record { history = h; stable = next }, edge_between level next)
step_table h level x p q r = ground arith

update-settled :
    (d : Debouncer) (initial x : Bool) (xs : List Bool)
    → Agrees d initial xs
    → update d x ≡ (
      record { history = shifted d x; stable = settled initial (x ∷ xs) },
      edge_between (settled initial xs) (settled initial (x ∷ xs)),
    )
update-settled d initial x xs a =
    update-step_of d x a.byte
    ∙ rw (shift_window d.history x initial xs a.byte a.window, a.level)
        (step_table (shifted d x) (settled initial xs) x (sample initial xs 0) (sample initial xs 1)
          (sample initial xs 2))

after-Agrees : (initial : Bool) (xs : List Bool) → Agrees (after initial xs) initial xs
unfolding after
after-Agrees initial [] = new-Agrees initial
after-Agrees initial (x ∷ xs) =
    let d = after initial xs in
    let a = after-Agrees initial xs in
    rw (update-settled d initial x xs a, after)
      (record {
        byte = shifted_byte d x;
        window = shift_window d.history x initial xs a.byte a.window;
        level = refl;
      })

-- After any samples the debounced level is the level last seen in four samples in a row, the
-- initial level standing in for samples before the first; and one more sample reports exactly the
-- change of that level, as `Rising` or `Falling`, and nothing when the level stays.
pub update-edge_between :
    (initial x : Bool) (xs : List Bool)
    → (state (after initial xs) ≡ settled initial xs)
      × ((update (after initial xs) x).1
          ≡ edge_between (settled initial xs) (settled initial (x ∷ xs)))
unfolding state
update-edge_between initial x xs = (
  (after-Agrees initial xs).level,
  ap (λ (t : Debouncer × Option Edge). t.1)
      (update-settled (after initial xs) initial x xs (after-Agrees initial xs)),
)

settled-cases :
    (initial x : Bool) (xs : List Bool)
    → settled initial (x ∷ xs) ≢ settled initial xs
    → four_at (settled initial (x ∷ xs)) initial (x ∷ xs) ≡ true
settled-cases initial x xs h = ground arith

-- A level that differs from the one before the last sample has been seen in all of the last four
-- samples: a disturbance of up to three samples changes nothing.
pub change_needs_four :
    (initial x : Bool) (xs : List Bool) (level : Bool)
    → state (after initial (x ∷ xs)) ≡ level
    → state (after initial xs) ≢ level
    → four_at level initial (x ∷ xs) ≡ true
unfolding state
change_needs_four initial x xs level now before =
    let a = after-Agrees initial xs in
    let b = after-Agrees initial (x ∷ xs) in
    let moved : settled initial (x ∷ xs) ≢ settled initial xs =
      λ e. before (a.level ∙ sym e ∙ sym b.level ∙ now) in
    rw (sym b.level ∙ now) at (settled-cases initial x xs moved)
