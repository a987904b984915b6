-- ===== src/Mqtt/Task/Online.antt =====
-- `MQTT_ONLINE` says what is the case.
use jzf407_rust.Prelude.{
  ℕ, ◌&&◌, ◌||◌, not, [], ◌∷◌, none, some, sym, ◌∙◌, ◌≡◌, refl, Bool, true, false, List, Bytes,
  Bool-cases, inl, inr,
}
use jzf407_rust.Eeprom.{Bus}
use jzf407_rust.FaultMarker.{ResetReason}
use jzf407_rust.Mqtt.{
  Publication, Device, Selected, header, header_error, relay_changed, timer, handle_event,
  subscribe_loop, subscribe_topics, after_select, heartbeat, subscribe_all,
}
use jzf407_rust.Mqtt.Task.{
  Place, top, tcp_connecting, mqtt_connecting, announcing, pausing, restarting, looping, Task,
  Answer, turned, step_at, step, spawned,
}

-- Whether the broker has accepted the client and the connection has not ended.
abbrev pub is_connected : Place → Bool
is_connected announcing = true
is_connected (looping next) = true
is_connected restarting = true
is_connected top = false
is_connected tcp_connecting = false
is_connected mqtt_connecting = false
is_connected pausing = false

-- Every topic that the client takes as a filter was accepted.
abbrev pub all_accepted : (Bytes → Bool) → (Bytes → Bool) → List Bytes → Bool
all_accepted is_filter accepts [] = true
all_accepted is_filter accepts (topic ∷ topics) =
    (not (is_filter topic) || accepts topic) && all_accepted is_filter accepts topics

-- Whether the connection outlives what `select3` gave and the answer to the call that follows.
abbrev pub lives : {bus : Bus} → Selected bus → Bool → Bool
lives (header (some e)) accepted = true
lives (header none) accepted = false
lives header_error accepted = false
lives (relay_changed on) accepted = accepted
lives timer accepted = accepted

-- Whether the broker is connected, from what the network answers to what the task asked: the MQTT
-- connect decides, a refused subscription, an error or a refused call ends it, nothing else counts.
abbrev pub link : {bus : Bus} → (Bytes → Bool) → Place → Answer bus → Bool → Bool
link is_filter mqtt_connecting a up = a.accepted
link is_filter announcing a up = up && all_accepted is_filter a.accepts subscribe_topics
link is_filter (looping next) a up = up && lives a.selected a.accepted
link is_filter place a up = up

subscribe_loop-all :
    (is_filter accepts : Bytes → Bool) (topics : List Bytes)
    → (subscribe_loop is_filter accepts topics).1 ≡ all_accepted is_filter accepts topics
unfolding subscribe_loop
subscribe_loop-all is_filter accepts [] = refl
subscribe_loop-all is_filter accepts (topic ∷ topics) =
    let later = subscribe_loop-all is_filter accepts topics in
    elim (Bool-cases (is_filter topic)) [
      | inr h ↦ rw h later
      | inl h ↦ elim (Bool-cases (accepts topic)) [
        | inl k ↦ rw (h, k) later
        | inr k ↦ rw (h, k) refl
      ]
    ]

module _ (bus : Bus) (is_filter : Bytes → Bool) (reason : ResetReason) where
  -- `After up t`: the task is at `t` after some steps, between which the other tasks may change the
  -- device, and `up` is what the answers on the way made of the connection.
  pub data After : Bool → Task bus → Type 0 where
    start : (d : Device bus) → After false (spawned bus is_filter reason d)
    moved :
        {up : Bool} {t : Task bus} (a : Answer bus)
        → After up t
        → After (link is_filter t.place a up) (step bus is_filter reason a t).task
    changed :
        {up : Bool} {t : Task bus} (d : Device bus)
        → After up t
        → After up (record { place = t.place; online = t.online; device = d })

  abbrev Tells : Bool → Task bus → Type 0
  Tells up t = (t.online ≡ up) × (is_connected t.place ≡ up)

  turned-Tells :
      (next : ℕ) (beat : List Publication) (selected : Selected bus) (accepted : Bool)
      (d : Device bus)
      → Tells
          (lives selected accepted)
          (turned bus is_filter reason next beat (after_select bus selected accepted d)).task
  unfolding after_select
  turned-Tells next beat (header (some e)) accepted d =
      elim (Bool-cases (handle_event bus e d).restarts) [
        | inl r ↦ rw r (refl, refl)
        | inr r ↦ rw r (refl, refl)
      ]
  turned-Tells next beat (header none) accepted d = (refl, refl)
  turned-Tells next beat header_error accepted d = (refl, refl)
  turned-Tells next beat (relay_changed on) true d = (refl, refl)
  turned-Tells next beat (relay_changed on) false d = (refl, refl)
  turned-Tells next beat timer true d = (refl, refl)
  turned-Tells next beat timer false d = (refl, refl)

  place-Tells :
      (place : Place) (a : Answer bus) (t : Task bus) (up : Bool)
      → t.online ≡ up
      → is_connected place ≡ up
      → Tells (link is_filter place a up) (step_at bus is_filter reason place a t).task
  unfolding subscribe_all
  place-Tells top a t up e p = (p, p)
  place-Tells tcp_connecting a t up e p = elim (Bool-cases a.accepted) [
    | inl c ↦ rw c (e, p)
    | inr c ↦ rw c (e, p)
  ]
  place-Tells mqtt_connecting a t up e p = elim (Bool-cases a.accepted) [
    | inl c ↦ rw c (refl, refl)
    | inr c ↦ rw c (e ∙ sym p, refl)
  ]
  place-Tells announcing a t up e p =
      let all = subscribe_loop-all is_filter a.accepts subscribe_topics in
      elim (Bool-cases (all_accepted is_filter a.accepts subscribe_topics)) [
        | inl c ↦ rw (← p, all, c) (refl, refl)
        | inr c ↦ rw (← p, all, c) (refl, refl)
      ]
  place-Tells (looping next) a t up e p = rw (← p) (
      turned-Tells (heartbeat bus a.now next).0 (heartbeat bus a.now next).1 a.selected a.accepted
        t.device)
  place-Tells pausing a t up e p = (e, p)
  place-Tells restarting a t up e p = (e, p)

  told : {up : Bool} {t : Task bus} → After up t → Tells up t
  unfolding step
  told (start d) = (refl, refl)
  told (moved {up} {t} a r) = place-Tells t.place a t up (told r).0 (told r).1
  told (changed d r) = told r

  -- Whatever the network does, `MQTT_ONLINE` is what its answers make of the connection: it is set by
  -- an MQTT connect that the broker accepts and by nothing else, and it is reset by a connect or a
  -- subscription that is refused, an error of a header or a body, or a relay report or a ping that
  -- is refused, and by nothing else.
  pub online_tells : {up : Bool} {t : Task bus} → After up t → t.online ≡ up
  online_tells r = (told r).0
