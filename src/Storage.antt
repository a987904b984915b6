-- ===== src/Storage.antt =====
-- The two stores on the one EEPROM: src/persistence.rs at 0..8 and src/config.rs at 16..191.
mod Tests
use jzf407_rust.Prelude.{
  cons_eq, ℕ, zero, suc, ◌+◌, ◌≤◌, ◌<◌, ◌≡◌, refl, ap, ◌∙◌, inl, inr, subst, sym, Bool, true, false,
  some, some_inj, [], ◌∷◌, Bytes, length, arith, Bool-cases,
}
use jzf407_rust.Eeprom.{Bus, Cell, bytes_from, write_bytes}
use jzf407_rust.Eeprom.Written.{write_bytes_keeps}
use jzf407_rust.NetConfig.{NetworkConfig, len, to_bytes}
use jzf407_rust.NetConfig.Valid.{IsValid}
use jzf407_rust.NetConfig.Image.{length-to_bytes}
use jzf407_rust.ConfigStore
use jzf407_rust.ConfigStore.{save_config}
use jzf407_rust.Persistence
use jzf407_rust.Persistence.{OutputState, Store, image, save_field, is_cached, cached_or_default}
use jzf407_rust.Persistence.Cache.{length-image, saved_as, cached_stays}

pub bytes_from_eq :
    (f g : ℕ → ℕ) (a n : ℕ)
    → ((x : ℕ) → a ≤ x → x < a + n → f x ≡ g x)
    → bytes_from f a n ≡ bytes_from g a n
bytes_from_eq f g a zero h = refl
bytes_from_eq f g a (suc n) h =
    cons_eq (h a (omega arith) (omega arith))
      (bytes_from_eq f g (suc a) n (λ x lo hi. h x (omega arith) (omega arith)))

room : (t : OutputState) → 0 + length (image t) ≤ 256
room t = omega (arith, length-image t)

eight : (t : OutputState) (x : ℕ) → 16 ≤ x → 0 + length (image t) ≤ x
eight t x h = omega (arith, length-image t)

module _ (bus : Bus) (d : bus.Dev) where
  -- Saving a valid configuration leaves the eight bytes of the LED state as they were, whether
  -- the save succeeds or stops half way.
  pub save_config_keeps_state :
      (cfg : NetworkConfig) {d' : bus.Dev} (held : Bool)
      → IsValid cfg
      → (save_config bus (record { held = held; chip = some d }) cfg).0.chip ≡ some d'
      → bytes_from (bus.view d') Persistence.base 8 ≡ bytes_from (bus.view d) Persistence.base 8
  unfolding save_config
  save_config_keeps_state cfg held v e =
      subst
        (λ t.
          bytes_from (bus.view t) Persistence.base 8 ≡ bytes_from (bus.view d) Persistence.base 8)
        (some_inj e)
        (bytes_from_eq _ _ 0 8 λ x lo hi.
          write_bytes_keeps bus d 16 (to_bytes cfg) x (omega (arith, length-to_bytes cfg v))
            (inl (omega arith)))

  -- Saving the LED state leaves the 175 bytes of the configuration as they were, whether the
  -- save succeeds, stops half way, or has nothing to write.
  pub save_field_keeps_config :
      (s : Store bus) (update : OutputState → OutputState) {d' : bus.Dev}
      → s.cell.chip ≡ some d
      → (save_field bus s update).cell.chip ≡ some d'
      → bytes_from (bus.view d') ConfigStore.base len ≡ bytes_from (bus.view d) ConfigStore.base len
  save_field_keeps_config s update {d'} chip e =
      elim (Bool-cases (is_cached s.cache (update (cached_or_default s.cache)))) [
        | inl h ↦ same (rw (cached_stays bus s d chip update h) at e)
        | inr h ↦ moved (rw (saved_as bus s d chip update h) at e)
      ]
    where
      Kept : bus.Dev → Type 0
      Kept t =
          bytes_from (bus.view t) ConfigStore.base len
          ≡ bytes_from (bus.view d) ConfigStore.base len

      same : s.cell.chip ≡ some d' → Kept d'
      same h = subst Kept (some_inj (sym chip ∙ h)) refl

      wrote : bus.Dev
      wrote = (write_bytes bus d 0 (image (update (cached_or_default s.cache)))).0

      moved : some wrote ≡ some d' → Kept d'
      moved h = subst Kept (some_inj h) (
          bytes_from_eq _ _ 16 len λ x lo hi.
            write_bytes_keeps bus d 0 (image (update (cached_or_default s.cache))) x
              (room (update (cached_or_default s.cache)))
              (inr (eight (update (cached_or_default s.cache)) x lo)))
