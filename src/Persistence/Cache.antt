-- ===== src/Persistence/Cache.antt =====
-- The cache against the EEPROM.
use jzf407_rust.Prelude.{
  ◌+◌, ◌≤◌, ◌≡◌, ◌⊎◌, refl, ap, ◌∙◌, inl, inr, subst, Bool, true, false, Option, none, some, Bytes,
  length, arith, Bool-cases, if◌then◌else◌, bytes_eq,
}
use jzf407_rust.Eeprom.{Bus, bytes_from, read, write_bytes, try_read}
use jzf407_rust.Eeprom.Written.{write_bytes_stores}
use jzf407_rust.Persistence.{
  OutputState, Store, base, state_of, image, is_cached, cached_or_default, loaded, load_state,
  save_field,
}

-- The bytes that are written are read back as the same state.
state_of-image : (s : OutputState) → state_of (image s) ≡ s
unfolding state_of image bytes_eq
state_of-image s = ground arith

pub length-image : (s : OutputState) → length (image s) ≡ 8
unfolding image
length-image s = refl

is_cached-eq : (c : Option OutputState) (s : OutputState) → is_cached c s ≡ true → c ≡ some s
unfolding is_cached
is_cached-eq none s h = cc
is_cached-eq (some c) s h = ground arith

is_cached_refl : (s : OutputState) → is_cached (some s) s ≡ true
unfolding is_cached
is_cached_refl s = ground arith

-- The cache says what the EEPROM would be read as.
abbrev pub Synced : (bus : Bus) → bus.Dev → Option OutputState → Type 0
Synced bus d none = Unit {0}
Synced bus d (some c) = state_of (bytes_from (bus.view d) base 8) ≡ c

module _ (bus : Bus) (s : Store bus) (d : bus.Dev) (chip : s.cell.chip ≡ some d) where
  abbrev pub next : (OutputState → OutputState) → OutputState
  next update = update (cached_or_default s.cache)

  abbrev pub attempt : (OutputState → OutputState) → bus.Dev × Bool
  attempt update = write_bytes bus d base (image (next update))

  pub cached_stays :
      (update : OutputState → OutputState)
      → is_cached s.cache (next update) ≡ true
      → save_field bus s update ≡ s
  unfolding save_field
  cached_stays update h = rw h

  pub saved_as :
      (update : OutputState → OutputState)
      → is_cached s.cache (next update) ≡ false
      → save_field bus s update ≡ record {
        cell = record s.cell { chip = some (attempt update).0 };
        cache = if (attempt update).1 then some (next update) else s.cache;
      }
  unfolding save_field
  saved_as update h = rw (h, chip) refl

  read_back :
      (update : OutputState → OutputState)
      → (attempt update).1 ≡ true
      → state_of (bytes_from (bus.view (attempt update).0) base 8) ≡ next update
  unfolding image
  read_back update h =
      ap state_of (write_bytes_stores bus d base (image (next update)) (size (next update)) h)
      ∙ state_of-image (next update)
    where
      size : (t : OutputState) → base + length (image t) ≤ 256
      size t = omega arith

-- The state on a chip, for a free cell and a bus that completes the read.
pub load_chip :
    (bus : Bus) (s : Store bus) (d : bus.Dev) (buf : Bytes)
    → s.cell.held ≡ false
    → s.cell.chip ≡ some d
    → (bus.blocking_write_read d base 8).1 ≡ some buf
    → (load_state bus s).1 ≡ state_of (bytes_from (bus.view d) base 8)
unfolding load_state try_read read loaded
load_chip bus s d buf h c e = rw (h, c, e) (ap state_of (bus.read_gives d base 8 buf e))

module _ (bus : Bus) (s : Store bus) (d : bus.Dev) (free : s.cell.held ≡ false)
    (chip : s.cell.chip ≡ some d) (update : OutputState → OutputState) where
  abbrev wanted : OutputState
  wanted = next bus s d chip update

  abbrev tried : bus.Dev × Bool
  tried = attempt bus s d chip update

  -- With the cache in step with the EEPROM, a save that had nothing to write, or whose write
  -- succeeded, leaves the wanted state in the cache and on the chip, and they are in step again.
  pub save_field-Synced :
      Synced bus d s.cache
      → (is_cached s.cache wanted ≡ true) ⊎ (tried.1 ≡ true)
      → ((save_field bus s update).cache ≡ some wanted)
        × (d' : bus.Dev) × ((save_field bus s update).cell.chip ≡ some d')
        × Synced bus d' (some wanted)
  save_field-Synced sync known = elim (Bool-cases (is_cached s.cache wanted)) [
    | inl h ↦
        let held = is_cached-eq s.cache wanted h in
        rw (cached_stays bus s d chip update h) (held, d, chip, subst (Synced bus d) held sync)
    | inr h ↦ elim known [
      | inl k ↦ cc (rw h at k)
      | inr k ↦
          rw (saved_as bus s d chip update h, k)
            (refl, tried.0, refl, read_back bus s d chip update k)
    ]
  ]

  -- With the cache in step with the EEPROM, after a save that had nothing to write, or whose write
  -- succeeded, the state that the next boot loads is the one that was saved, whenever the bus
  -- completes that read.
  pub load_state-save_field :
      (buf : Bytes)
      → Synced bus d s.cache
      → (is_cached s.cache wanted ≡ true) ⊎ (tried.1 ≡ true)
      → ((d' : bus.Dev)
          → (save_field bus s update).cell.chip ≡ some d'
          → (bus.blocking_write_read d' base 8).1 ≡ some buf)
      → (load_state bus (save_field bus s update)).1 ≡ wanted
  load_state-save_field buf sync known reads =
      let (_, d', chip', now) = save_field-Synced sync known in
      load_chip bus (save_field bus s update) d' buf still_free chip' (reads d' chip') ∙ now
    where
      still_free : (save_field bus s update).cell.held ≡ false
      still_free = elim (Bool-cases (is_cached s.cache wanted)) [
        | inl h ↦ rw (cached_stays bus s d chip update h) free
        | inr h ↦ rw (saved_as bus s d chip update h) free
      ]

  -- When the write of a save fails, the cache keeps the state `c` from before: saving the wanted
  -- state again goes to the EEPROM again, but saving `c` again writes nothing, whatever bytes the
  -- failed write has left on the chip.
  pub failed_save_forgotten :
      (c : OutputState)
      → s.cache ≡ some c
      → is_cached s.cache wanted ≡ false
      → tried.1 ≡ false
      → (is_cached (save_field bus s update).cache wanted ≡ false)
        × (save_field bus (save_field bus s update) (λ _. c) ≡ save_field bus s update)
  failed_save_forgotten c old miss fails = (rw after_failure miss, skips)
    where
      after_failure : (save_field bus s update).cache ≡ s.cache
      after_failure = rw (saved_as bus s d chip update miss, fails) refl

      skips : save_field bus (save_field bus s update) (λ _. c) ≡ save_field bus s update
      skips = (unfold save_field in rw (after_failure ∙ old, is_cached_refl c) refl)
