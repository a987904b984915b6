-- ===== src/Boot/Reboot.antt =====
-- From a command over MQTT, through the restart, to the running board.
use jzf407_rust.Prelude.{ℕ, ◌≡◌, ◌⊎◌, refl, ap, ◌∙◌, inl, inr, Bool, true, false, some, Bytes}
use jzf407_rust.Text.{codes}
use jzf407_rust.Eeprom.{Bus}
use jzf407_rust.Persistence.{
  OutputState, Store, cached_or_default, is_cached, save_field, save_led1, base,
}
use jzf407_rust.Persistence.Cache.{Synced, attempt, next, save_field-Synced}
use jzf407_rust.Outputs.{led1, led2, get_led, get_relay}
use jzf407_rust.LedDispatch.{parse_bool}
use jzf407_rust.FaultMarker.{
  Csr, remote_reboot, as_str, reason_of, read_and_clear, tag_remote_reboot,
}
use jzf407_rust.Mqtt.{publish, Device, publish_retained, Handled, perform, handle_event}
use jzf407_rust.Mqtt.Events.{reboot_restarts}
use jzf407_rust.Mqtt.Stored.{set_led1, handled}
use jzf407_rust.Mqtt.Connect.{topic_diag}
use jzf407_rust.Mqtt.Task.{announcements}
use jzf407_rust.Mqtt.Task.Beats.{Sends}
use jzf407_rust.Boot.{lit, second_load}
use jzf407_rust.Boot.Lights.{once_read, boot_lights}

module _ (bus : Bus) (dev : Device bus) (d : bus.Dev) (chip : dev.store.cell.chip ≡ some d)
    (free : dev.store.cell.held ≡ false) (on : Bool) (payload : Bytes)
    (says : parse_bool payload ≡ some on) where
  abbrev pub told : Device bus
  told = (handle_event bus (publish false (codes "stm32/led/1") payload) dev).device

  told_store : told.store ≡ save_field bus dev.store (set_led1 on)
  unfolding perform save_led1
  told_store = ap (λ (h : Handled bus). h.device.store) (handled bus dev on payload says)

  -- An LED that was switched over MQTT comes up as it was switched: after a message on `stm32/led/1`
  -- that is not retained and spells a level, the boot from the EEPROM that the message left behind
  -- shows that level on LED 1, the level that was known of LED 2, and the relay off. (The EEPROM is
  -- registered and free, the cache is in step with it, the save had nothing to write or succeeded,
  -- and the bus completes the read of the state at the boot.)
  pub led_survives_restart :
      (buf : Bytes)
      → Synced bus d dev.store.cache
      → (is_cached dev.store.cache (next bus dev.store d chip (set_led1 on)) ≡ true)
        ⊎ ((attempt bus dev.store d chip (set_led1 on)).1 ≡ true)
      → ((x : bus.Dev)
          → told.store.cell.chip ≡ some x
          → (bus.blocking_write_read (once_read bus x) base 8).1 ≡ some buf)
      → (d' : bus.Dev) × (told.store.cell.chip ≡ some d')
        × (get_led led1 (lit (second_load bus d').1) ≡ on)
        × (get_led led2 (lit (second_load bus d').1) ≡ (cached_or_default dev.store.cache).led2)
        × (get_relay (lit (second_load bus d').1) ≡ false)
  led_survives_restart buf sync known reads =
      let (_, d', chip', now) =
        save_field-Synced bus dev.store d free chip (set_led1 on) sync known in
      let left : told.store.cell.chip ≡ some d' =
        ap (λ (s : Store bus). s.cell.chip) told_store ∙ chip' in
      let (first, second, third) = boot_lights bus d' buf (reads d' left) in
      (
        d',
        left,
        first ∙ ap (λ (s : OutputState). s.led1) now,
        second ∙ ap (λ (s : OutputState). s.led2) now,
        third,
      )

-- A reboot that is asked for over MQTT is reported as one: the message on `stm32/cmd/reboot` restarts
-- the board, and whatever flags the reset sets, the reason that the next boot finds is the remote
-- reboot, and it is among the announcements that the MQTT task makes, retained, when it is connected.
pub remote_reboot_announced :
    (bus : Bus) (d : Device bus) (payload : Bytes) (flags : Csr) (is_filter : Bytes → Bool)
    → let after = handle_event bus (publish false (codes "stm32/cmd/reboot") payload) d in
      let reason = (read_and_clear (record { marker = after.device.marker; csr = flags })).1 in
      (after.restarts ≡ true)
      × (reason ≡ remote_reboot)
      × Sends
          (publish_retained topic_diag (codes "remote_reboot"))
          (announcements bus is_filter reason)
unfolding as_str read_and_clear reason_of
remote_reboot_announced bus d payload flags is_filter =
    let (again, marker) = reboot_restarts bus d payload in
    let found =
      marked (handle_event bus (publish false (codes "stm32/cmd/reboot") payload) d).device.marker
        marker in
    (again, found, inr (inl (rw found refl)))
  where
    marked :
        (m : ℕ)
        → m ≡ tag_remote_reboot
        → (read_and_clear (record { marker = m; csr = flags })).1 ≡ remote_reboot
    marked m e = rw e refl
