-- ===== src/Mqtt/Task.antt =====
-- src/mqtt.rs: `mqtt_task`, from one point where it waits to the next, with the connected loop.
pub mod Online
pub mod Beats
mod Tests
use jzf407_rust.Prelude.{
  ℕ, ◌+◌, Bool, true, false, Option, none, some, List, [], ◌∷◌, ◌++◌, Bytes, if◌then◌else◌,
}
use jzf407_rust.Text.{codes}
use jzf407_rust.Eeprom.{Bus}
use jzf407_rust.FaultMarker.{ResetReason, as_str}
use jzf407_rust.Mqtt.{
  Publication, Device, Handled, publish_retained, Selected, heartbeat_interval_ms, heartbeat,
  after_select, subscribe_all,
}
use jzf407_rust.Mqtt.Connect.{topic_status, topic_diag}

-- Where the task is: at the top of its loop; in the TCP connect, or in the MQTT connect; connected,
-- with the two announcements and the subscriptions to be made; in `run_connected_loop`, with the time
-- of the next heartbeat; in the pause of 1 s; or in `safe_reboot`, which does not return.
pub data Place : Type 0 where
  top tcp_connecting mqtt_connecting announcing pausing restarting : Place
  looping : ℕ → Place

-- The task, `MQTT_ONLINE`, and what the handler of events reaches.
pub record Task (bus : Bus) : Type 0 where
  pub place : Place
  pub online : Bool
  pub device : Device bus

-- What the network answers at the point where the task waits, and the clock in milliseconds: whether
-- the connect or the call that it is in was accepted, which subscriptions are, and what `select3` gives.
pub record Answer (bus : Bus) : Type 0 where
  pub accepted : Bool
  pub accepts : Bytes → Bool
  pub selected : Selected bus
  pub now : ℕ

-- What the task leaves, and what it published on the way.
pub record Moved (bus : Bus) : Type 0 where
  pub task : Task bus
  pub sent : List Publication

module _ (bus : Bus) (is_filter : Bytes → Bool) (reason : ResetReason) where
  abbrev pub to : Place → Bool → Task bus → Task bus
  to place online t = record { place = place; online = online; device = t.device }

  abbrev quietly : Task bus → Moved bus
  quietly t = record { task = t; sent = [] }

  -- `status` and `diag`, both retained; whether they were taken does not matter.
  abbrev pub announcements : List Publication
  announcements =
      publish_retained topic_status (codes "online")
      ∷ publish_retained topic_diag (as_str reason)
      ∷ []

  -- Behind one turn of the connected loop: into the next one, out of it, or into the reset.
  abbrev turned : ℕ → List Publication → Handled bus × Bool → Moved bus
  turned next beat (h, continues) = record {
    task = record {
      place = if h.restarts then restarting else (if continues then looping next else pausing);
      online = if h.restarts then true else continues;
      device = h.device;
    };
    sent = beat ++ h.sent;
  }

  abbrev loop_turn : ℕ × List Publication → Answer bus → Task bus → Moved bus
  loop_turn (next, beat) a t = turned next beat (after_select bus a.selected a.accepted t.device)

  abbrev step_at : Place → Answer bus → Task bus → Moved bus
  step_at top a t = quietly (to tcp_connecting false t)
  step_at tcp_connecting a t =
      quietly (to (if a.accepted then mqtt_connecting else pausing) t.online t)
  step_at mqtt_connecting a t =
      quietly (if a.accepted then to announcing true t else to pausing t.online t)
  step_at announcing a t = record {
    task =
        if (subscribe_all is_filter a.accepts).1
        then to (looping (a.now + heartbeat_interval_ms)) true t
        else to pausing false t;
    sent = announcements;
  }
  step_at (looping next) a t = loop_turn (heartbeat bus a.now next) a t
  step_at pausing a t = quietly (to top t.online t)
  step_at restarting a t = quietly (to restarting t.online t)

  unfoldable pub step : Answer bus → Task bus → Moved bus
  step a t = step_at t.place a t

  -- The task as it is spawned.
  abbrev pub spawned : Device bus → Task bus
  spawned d = record { place = top; online = false; device = d }
