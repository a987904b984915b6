-- ===== src/Mqtt/Events.antt =====
-- What events can do: the LEDs, the pong, and the restart.
use jzf407_rust.Prelude.{
  ◌≡◌, ◌↔◌, inl, inr, refl, sym, ap, ◌∙◌, subst, true, false, Option, none, some, some_inj, Bytes,
  All, Option-cases, bytes_eq,
}
use jzf407_rust.Text.{codes}
use jzf407_rust.Eeprom.{Bus}
use jzf407_rust.FaultMarker.{tag_remote_reboot, mark_remote_reboot}
use jzf407_rust.LedDispatch.{
  OutputCmd, led1, led2, all_leds, relay, ping, reboot, unknown, dispatch, dispatch_special,
}
use jzf407_rust.LedDispatch.Commands.{dispatch_iff, dispatch_special_iff, dispatch_disjoint}
use jzf407_rust.Mqtt.{Event, publish, other, Device, Handled, topic_pong, perform, handle_event}
use jzf407_rust.Web.Request.{or_else}

module _ (bus : Bus) (d : Device bus) where
  abbrev Quiet : Handled bus → Type 0
  Quiet h = All (λ p. p.topic ≡ topic_pong) h.sent × (h.device.relay_change ≡ d.relay_change)

  perform-Quiet : (c : Option OutputCmd) → Quiet (perform bus c d)
  unfolding perform
  perform-Quiet none = (tt, refl)
  perform-Quiet (some (led1 on)) = (tt, refl)
  perform-Quiet (some (led2 on)) = (tt, refl)
  perform-Quiet (some (all_leds on)) = (tt, refl)
  perform-Quiet (some (relay on)) = (tt, refl)
  perform-Quiet (some ping) = ((refl, tt), refl)
  perform-Quiet (some reboot) = (tt, refl)
  perform-Quiet (some unknown) = (tt, refl)

  -- No event that comes in makes the handler itself publish anything but a pong or signal a change of
  -- the relay. (A command for the relay goes to the relay task, which reports the end of a pulse.)
  pub handle_event_only_pongs : (e : Event) → Quiet (handle_event bus e d)
  unfolding handle_event
  handle_event_only_pongs other = (tt, refl)
  handle_event_only_pongs (publish true topic payload) = (tt, refl)
  handle_event_only_pongs (publish false topic payload) =
      perform-Quiet (or_else (dispatch topic payload) (dispatch_special topic))

  restarts-reboot : (c : Option OutputCmd) → (perform bus c d).restarts ≡ true → c ≡ some reboot
  unfolding perform
  restarts-reboot none e = cc
  restarts-reboot (some (led1 on)) e = cc
  restarts-reboot (some (led2 on)) e = cc
  restarts-reboot (some (all_leds on)) e = cc
  restarts-reboot (some (relay on)) e = cc
  restarts-reboot (some ping) e = cc
  restarts-reboot (some reboot) e = refl
  restarts-reboot (some unknown) e = cc

  chosen-reboot :
      (topic payload : Bytes)
      → or_else (dispatch topic payload) (dispatch_special topic) ≡ some reboot
      → topic ≡ codes "stm32/cmd/reboot"
  chosen-reboot topic payload e = elim (Option-cases (dispatch topic payload)) [
    | inl h ↦ sym (some_inj ((dispatch_special_iff topic reboot).0 (rw h at e)))
    | inr (c, h) ↦ cc (((dispatch_iff topic payload reboot).0 (h ∙ rw h at e)).0)
  ]

  reboot-chosen :
      (payload : Bytes)
      → or_else
          (dispatch (codes "stm32/cmd/reboot") payload)
          (dispatch_special (codes "stm32/cmd/reboot"))
        ≡ some reboot
  unfolding dispatch_special bytes_eq
  reboot-chosen payload = elim (Option-cases (dispatch (codes "stm32/cmd/reboot") payload)) [
    | inl h ↦ rw h refl
    | inr (c, h) ↦ cc (dispatch_disjoint (codes "stm32/cmd/reboot") payload c h)
  ]

  restarted :
      (e : Event)
      → (handle_event bus e d).restarts ≡ true
      → (payload : Bytes) × (e ≡ publish false (codes "stm32/cmd/reboot") payload)
  unfolding handle_event
  restarted other e = cc
  restarted (publish true topic payload) e = cc
  restarted (publish false topic payload) e =
      let chosen = restarts-reboot (or_else (dispatch topic payload) (dispatch_special topic)) e in
      (payload, ap (λ t. publish false t payload) (chosen-reboot topic payload chosen))

  pub reboot_restarts :
      (payload : Bytes)
      → ((handle_event bus (publish false (codes "stm32/cmd/reboot") payload) d).restarts ≡ true)
        × ((handle_event bus (publish false (codes "stm32/cmd/reboot") payload) d).device.marker
            ≡ tag_remote_reboot)
  unfolding handle_event perform mark_remote_reboot
  reboot_restarts payload = rw (reboot-chosen payload) (refl, refl)

  -- The board restarts exactly on a message that is not retained on the topic `stm32/cmd/reboot`,
  -- with any payload, and then the marker says that it was asked to.
  pub handle_event_restarts_iff :
      (e : Event)
      → ((handle_event bus e d).restarts ≡ true) ↔ (
          (payload : Bytes) × (e ≡ publish false (codes "stm32/cmd/reboot") payload)
          × ((handle_event bus e d).device.marker ≡ tag_remote_reboot))
  handle_event_restarts_iff e = (
    λ h.
        let (payload, same) = restarted e h in
        (
          payload,
          same,
          subst (λ x. (handle_event bus x d).device.marker ≡ tag_remote_reboot) (sym same)
              (reboot_restarts payload).1,
        ),
    λ h. subst (λ x. (handle_event bus x d).restarts ≡ true) (sym h.1) (reboot_restarts h.0).0,
  )
