-- ===== src/Persistence/Tests.antt =====
-- Saves of the LED state on a simulated chip.
use jzf407_rust.Prelude.{
  ◌≡◌, refl, inr, subst, some_inj, bytes_eq, true, false, Bool, some, List, none, Bytes, [], ◌∷◌,
}
use jzf407_rust.Eeprom.{write_bytes, try_read}
use jzf407_rust.Eeprom.Simulated.{Chip, simulated, blank}
use jzf407_rust.Persistence.{
  OutputState, Store, image, is_cached, load_state, save_field, save_led1,
}
use jzf407_rust.Persistence.Cache.{load_state-save_field, failed_save_forgotten}

abbrev dark : OutputState
dark = record { led1 = false; led2 = false }

-- A chip that was read as `dark`; its bus answers as listed.
abbrev booted : List Bool → Store simulated
booted replies = record {
  cell = record { held = false; chip = some (blank replies) };
  cache = some dark;
}

abbrev light_led1 : OutputState → OutputState
light_led1 t = record t { led1 = true }

-- The write of the LED state stops behind the byte of LED 1.
abbrev stopping : Store simulated
stopping = booted (true ∷ true ∷ true ∷ true ∷ true ∷ true ∷ false ∷ [])

-- Switching LED 1 on fails half way; switching it off again is not written; the next boot finds it on.
ghost_led1 :
    (load_state simulated (save_led1 simulated (save_led1 simulated stopping true) false)).1.led1
    ≡ true
unfolding load_state save_led1 save_field is_cached try_read write_bytes bytes_eq
ghost_led1 = refl

abbrev fresh : Store simulated
fresh = record { cell = record { held = false; chip = some (blank []) }; cache = none }

abbrev lit : Bytes
lit = 0xca ∷ 0xfe ∷ 0xf0 ∷ 0x0d ∷ 0 ∷ 1 ∷ 0 ∷ 0 ∷ []

read_lit :
    (d : Chip)
    → (save_field simulated fresh light_led1).cell.chip ≡ some d
    → (simulated.blocking_write_read d 0 8).1 ≡ some lit
unfolding save_field is_cached write_bytes
read_lit d e = subst (λ t. (simulated.blocking_write_read t 0 8).1 ≡ some lit) (some_inj e) refl

load_state-save_field_example :
    (load_state simulated (save_field simulated fresh light_led1)).1
    ≡ record { led1 = true; led2 = false }
unfolding write_bytes image
load_state-save_field_example =
    load_state-save_field simulated fresh (blank []) refl refl light_led1 lit tt (inr refl) read_lit

failed_save_forgotten_example :
    (is_cached (save_field simulated stopping light_led1).cache (light_led1 dark) ≡ false)
    × (save_field simulated (save_field simulated stopping light_led1) (λ _. dark)
        ≡ save_field simulated stopping light_led1)
unfolding write_bytes is_cached image
failed_save_forgotten_example =
    failed_save_forgotten simulated stopping _ refl refl light_led1 dark refl refl refl
