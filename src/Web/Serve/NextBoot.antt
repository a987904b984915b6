-- ===== src/Web/Serve/NextBoot.antt =====
-- What `/save` reports as saved is what the next boot loads.
use jzf407_rust.Prelude.{◌≡◌, refl, ap, ◌∙◌, some, Bytes, Option-cases, inl, inr, false}
use jzf407_rust.Eeprom.{Bus, Cell, write_bytes}
use jzf407_rust.NetConfig.{NetworkConfig, len, to_bytes}
use jzf407_rust.NetConfig.Valid.{IsValid}
use jzf407_rust.ConfigStore.{Saved, done, overrun, failed, base, load_config, save_config}
use jzf407_rust.ConfigStore.Stored.{load_config-save_config}
use jzf407_rust.Web.{SessionState, saved_page}
use jzf407_rust.Web.Request.{ParsedRequest, body}
use jzf407_rust.Web.Form.{parse_form}
use jzf407_rust.Web.Form.Fields.{parse_form-IsValid}
use jzf407_rust.Web.Serve.{after_save, save_parsed, save_and_reboot}

module _ (bus : Bus) (d : bus.Dev) (cfg : NetworkConfig) (v : IsValid cfg) (s : SessionState) where
  abbrev pub free : Cell bus
  free = record { held = false; chip = some d }

  after_save-done :
      (out : Cell bus × Saved) → (after_save bus s out).reply ≡ saved_page → out.1 ≡ done
  after_save-done (c, done) e = refl
  after_save-done (c, overrun) e = cc
  after_save-done (c, failed) e = cc

  after_save-eeprom : (out : Cell bus × Saved) → (after_save bus s out).eeprom ≡ out.0
  after_save-eeprom (c, done) = refl
  after_save-eeprom (c, overrun) = refl
  after_save-eeprom (c, failed) = refl

  -- The bus completes the read of the configuration from what `next` leaves.
  abbrev pub Readable : NetworkConfig → Type 0
  Readable next =
      (buf : Bytes) × ((bus.blocking_write_read (write_bytes bus d base (to_bytes next)).0 base
          len).1
        ≡ some buf)

  saved_next :
      (next : NetworkConfig)
      → IsValid next
      → Readable next
      → (save_parsed bus s free (some next)).reply ≡ saved_page
      → (load_config bus (save_parsed bus s free (some next)).eeprom).1 ≡ next
  saved_next next w (buf, reads) e =
      ap (λ (c : Cell bus). (load_config bus c).1) (after_save-eeprom (save_config bus free next))
      ∙ load_config-save_config bus d next w buf (after_save-done (save_config bus free next) e)
          reads

  -- When `/save` answers that it saved, the body was a form that `parse_form` accepts, and the
  -- configuration it makes is valid and is exactly the one that the next boot loads, if the bus
  -- completes that read.
  pub load_config-save_and_reboot :
      (r : ParsedRequest)
      → ((next : NetworkConfig) → Readable next)
      → (save_and_reboot bus r cfg s free).reply ≡ saved_page
      → (b : Bytes) × (next : NetworkConfig) × (body r ≡ some b)
        × (parse_form b cfg ≡ some next)
        × IsValid next
        × ((load_config bus (save_and_reboot bus r cfg s free).eeprom).1 ≡ next)
  unfolding save_and_reboot
  load_config-save_and_reboot r reads e = elim (Option-cases (body r)) [
    | inl h ↦ cc (rw h at e)
    | inr (b, h) ↦ elim (Option-cases (parse_form b cfg)) [
      | inl k ↦ cc (rw (h, k) at e)
      | inr (next, k) ↦
          let w = parse_form-IsValid cfg v b next k in
          (b, next, h, k, w, rw (h, k) (saved_next next w (reads next) (rw (h, k) at e)))
    ]
  ]
