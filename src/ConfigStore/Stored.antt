-- ===== src/ConfigStore/Stored.antt =====
-- What is saved is what the next boot loads.
use jzf407_rust.Prelude.{
  AreBytes, ℕ, zero, suc, ◌<◌, ◌≡◌, refl, sym, ap, ◌∙◌, inl, inr, subst, Bool, true, false, Option,
  none, some, Bytes, arith, Bool-cases, Option-cases, unwrap_or, ◌>>=◌,
}
use jzf407_rust.Eeprom.{Bus, Cell, bytes_from, read, write_bytes, try_read}
use jzf407_rust.Eeprom.Written.{write_bytes_stores}
use jzf407_rust.NetConfig.{NetworkConfig, len, default, to_bytes, from_bytes}
use jzf407_rust.NetConfig.Valid.{IsValid, default-IsValid}
use jzf407_rust.NetConfig.Image.{from_bytes-to_bytes, length-to_bytes}
use jzf407_rust.NetConfig.Sound.{from_bytes-IsValid}
use jzf407_rust.ConfigStore.{base, done, load_config, save_config}

module _ (bus : Bus) where
  -- The configuration on a chip, for a bus that completes the read.
  load_chip :
      (d : bus.Dev) (buf : Bytes)
      → (bus.blocking_write_read d base len).1 ≡ some buf
      → (load_config bus (record { held = false; chip = some d })).1
        ≡ unwrap_or (from_bytes (bytes_from (bus.view d) base len)) default
  unfolding load_config try_read read
  load_chip d buf e =
      rw e (ap (λ (t : Bytes). unwrap_or (from_bytes t) default) (bus.read_gives d base len buf e))

  module _ (d : bus.Dev) (cfg : NetworkConfig) (v : IsValid cfg) where
    abbrev wrote : bus.Dev × Bool
    wrote = write_bytes bus d base (to_bytes cfg)

    stored_image : wrote.1 ≡ true → bytes_from (bus.view wrote.0) base len ≡ to_bytes cfg
    stored_image h =
        let size = length-to_bytes cfg v in
        subst (λ n. bytes_from (bus.view wrote.0) base n ≡ to_bytes cfg) size
          (write_bytes_stores bus d base (to_bytes cfg) (omega (arith, size)) h)

    -- A valid configuration whose save succeeded is exactly what the next `load_config` returns,
    -- whenever the bus completes that read. (The EEPROM is registered and not locked.)
    pub load_config-save_config :
        (buf : Bytes)
        → (save_config bus (record { held = false; chip = some d }) cfg).1 ≡ done
        → (bus.blocking_write_read wrote.0 base len).1 ≡ some buf
        → (load_config bus (save_config bus (record { held = false; chip = some d }) cfg).0).1 ≡ cfg
    unfolding save_config
    load_config-save_config buf h r = elim (Bool-cases wrote.1) [
      | inl e ↦
          load_chip wrote.0 buf r
          ∙ ap (λ (t : Bytes). unwrap_or (from_bytes t) default) (stored_image e)
          ∙ ap (λ (t : Option NetworkConfig). unwrap_or t default) (from_bytes-to_bytes cfg v)
      | inr e ↦ cc (rw (e, save_config) at h)
    ]

  bytes_from-AreBytes :
      (mem : ℕ → ℕ) (a n : ℕ) → ((x : ℕ) → mem x < 256) → AreBytes (bytes_from mem a n)
  bytes_from-AreBytes mem a zero h = tt
  bytes_from-AreBytes mem a (suc n) h = (h a, bytes_from-AreBytes mem (suc a) n h)

  parsed-IsValid : (b : Bytes) → AreBytes b → IsValid (unwrap_or (from_bytes b) default)
  parsed-IsValid b h = elim (Option-cases (from_bytes b)) [
    | inl e ↦ rw e default-IsValid
    | inr (cfg, e) ↦ rw e (from_bytes-IsValid b h cfg e)
  ]

  read-IsValid :
      (d : bus.Dev) (r : Option Bytes)
      → ((x : ℕ) → bus.view d x < 256)
      → (bus.blocking_write_read d base len).1 ≡ r
      → IsValid (unwrap_or (r >>= from_bytes) default)
  read-IsValid d none h e = default-IsValid
  read-IsValid d (some buf) h e =
      subst (λ t. IsValid (unwrap_or (from_bytes t) default))
        (sym (bus.read_gives d base len buf e))
        (parsed-IsValid _ (bytes_from-AreBytes (bus.view d) base len h))

  load_free :
      (held : Bool) (chip : Option bus.Dev)
      → ((d : bus.Dev) (x : ℕ) → chip ≡ some d → bus.view d x < 256)
      → IsValid (load_config bus (record { held = held; chip = chip })).1
  unfolding load_config try_read read
  load_free true chip h = default-IsValid
  load_free false none h = default-IsValid
  load_free false (some d) h = read-IsValid d _ (λ x. h d x refl) refl

  -- Whatever the EEPROM holds, and whether it can be read at all, the configuration that the boot
  -- goes on with is valid: no stored byte makes the prefix length or the port one that panics.
  -- (What the chip holds are bytes.)
  pub load_config-IsValid :
      (cell : Cell bus)
      → ((d : bus.Dev) (x : ℕ) → cell.chip ≡ some d → bus.view d x < 256)
      → IsValid (load_config bus cell).1
  load_config-IsValid cell h = load_free cell.held cell.chip h
