-- ===== src/Mqtt.antt =====
-- src/mqtt.rs: what the MQTT client does with events, and its connected loop. The rust_mqtt client is
-- seen by its answers: whether it accepted a call, and the event that a poll gave.
pub mod Events
pub mod Topics
pub mod Stored
pub mod Shown
pub mod Connect
pub mod Task
mod Tests
use jzf407_rust.Prelude.{
  ℕ, ◌+◌, ◌-◌, min, Bool, true, false, Option, none, some, List, [], ◌∷◌, ◌++◌, Bytes, leb,
  if◌then◌else◌,
}
use jzf407_rust.Text.{codes}
use jzf407_rust.Eeprom.{Bus}
use jzf407_rust.Persistence.{Store, save_led1, save_led2, save_leds}
use jzf407_rust.Outputs.{LedId, RelayCmd, pulse, off, SharedOutputs, set, signal}
use jzf407_rust.Outputs as Out
use jzf407_rust.FaultMarker.{mark_remote_reboot}
use jzf407_rust.LedDispatch.{
  OutputCmd, led1, led2, all_leds, relay, ping, reboot, unknown, dispatch, dispatch_special,
}
use jzf407_rust.Web.Request.{or_else}

abbrev pub topic_relay : Bytes
topic_relay = codes "stm32/relay"

abbrev pub topic_heartbeat : Bytes
topic_heartbeat = codes "stm32/heartbeat"

abbrev pub topic_pong : Bytes
topic_pong = codes "stm32/pong"

abbrev pub heartbeat_interval_ms : ℕ
heartbeat_interval_ms = 10000

abbrev pub subscribe_topics : List Bytes
subscribe_topics =
    codes "stm32/led/1"
    ∷ codes "stm32/led/2"
    ∷ codes "stm32/led/all"
    ∷ topic_relay
    ∷ codes "stm32/ping"
    ∷ codes "stm32/cmd/reboot"
    ∷ []

-- `Event`: a publication that came in, or anything else.
pub data Event : Type 0 where
  publish : Bool → Bytes → Bytes → Event
  other : Event

-- A publication that goes out.
pub record Publication : Type 0 where
  pub topic : Bytes
  pub payload : Bytes
  pub retained : Bool

-- What the handler can reach: the pins, the stored state, the relay's trigger, `RELAY_CHANGE` and
-- the reset marker.
pub record Device (bus : Bus) : Type 0 where
  pub outputs : SharedOutputs
  pub store : Store bus
  pub trigger : Option RelayCmd
  pub relay_change : Option Bool
  pub marker : ℕ

-- What an event leaves: the device, the publications asked of the client, and whether the board restarts.
pub record Handled (bus : Bus) : Type 0 where
  pub device : Device bus
  pub sent : List Publication
  pub restarts : Bool

abbrev pub publish_qos0 : Bytes → Bytes → Publication
publish_qos0 topic payload = record { topic = topic; payload = payload; retained = false }

abbrev pub publish_retained : Bytes → Bytes → Publication
publish_retained topic payload = record { topic = topic; payload = payload; retained = true }

module _ (bus : Bus) where
  abbrev pub unchanged : Device bus → Handled bus
  unchanged d = record { device = d; sent = []; restarts = false }

  -- The `match cmd` of `handle_event`.
  unfoldable pub perform : Option OutputCmd → Device bus → Handled bus
  perform none d = unchanged d
  perform (some (led1 on)) d =
      unchanged (record d { outputs = set Out.led1 on d.outputs; store = save_led1 bus d.store on })
  perform (some (led2 on)) d =
      unchanged (record d { outputs = set Out.led2 on d.outputs; store = save_led2 bus d.store on })
  perform (some (all_leds on)) d = unchanged (record d {
    outputs = set Out.led2 on (set Out.led1 on d.outputs);
    store = save_leds bus d.store on on;
  })
  perform (some (relay on)) d =
      unchanged (record d { trigger = signal (if on then pulse else off) d.trigger })
  perform (some ping) d = record {
    device = d;
    sent = publish_qos0 topic_pong (codes "1") ∷ [];
    restarts = false;
  }
  perform (some reboot) d = record {
    device = record d { marker = mark_remote_reboot d.marker };
    sent = [];
    restarts = true;
  }
  perform (some unknown) d = unchanged d

  unfoldable pub handle_event : Event → Device bus → Handled bus
  handle_event other d = unchanged d
  handle_event (publish retain topic payload) d =
      if retain
      then unchanged d
      else perform (or_else (dispatch topic payload) (dispatch_special topic)) d

  -- What `select3` gave: a header, with the event of its body if that could be read; an error; a
  -- change of the relay; or the timer.
  pub data Selected : Type 0 where
    header : Option Event → Selected
    header_error timer : Selected
    relay_changed : Bool → Selected

  abbrev pub relay_payload : Bool → Bytes
  relay_payload relay_on = if relay_on then codes "1" else codes "0"

  abbrev go_on : Bool → Handled bus → Handled bus × Bool
  go_on continues h = (h, continues)

  -- The `match result` of the loop, and whether the loop goes on; `accepted` is the answer of the
  -- client to the call that is made.
  unfoldable pub after_select : Selected → Bool → Device bus → Handled bus × Bool
  after_select (header (some e)) accepted d = go_on true (handle_event e d)
  after_select (header none) accepted d = go_on false (unchanged d)
  after_select header_error accepted d = go_on false (unchanged d)
  after_select (relay_changed on) accepted d = go_on accepted (record {
    device = record d { relay_change = none };
    sent = publish_qos0 topic_relay (relay_payload on) ∷ [];
    restarts = false;
  })
  after_select timer accepted d = go_on accepted (unchanged d)

  -- The start of a turn of the loop: the next heartbeat, and the one that is sent now.
  unfoldable pub heartbeat : ℕ → ℕ → ℕ × List Publication
  heartbeat now next =
      if leb next now
      then (now + heartbeat_interval_ms, publish_qos0 topic_heartbeat (codes "1") ∷ [])
      else (next, [])

  -- How long `select3` waits at most.
  abbrev pub timeout : ℕ → ℕ → ℕ
  timeout next now = min (next - now) 1000

-- The loop of `subscribe_all`: the requests made, and whether all were accepted. `is_filter` is
-- `TopicFilter::new(..).is_some()`.
unfoldable pub subscribe_loop : (Bytes → Bool) → (Bytes → Bool) → List Bytes → List Bytes × Bool
subscribe_loop is_filter accepts [] = ([], true)
subscribe_loop is_filter accepts (t ∷ ts) =
    let later = subscribe_loop is_filter accepts ts in
    if is_filter t then (if accepts t then (t ∷ later.0, later.1) else (t ∷ [], false)) else later

unfoldable pub subscribe_all : (Bytes → Bool) → (Bytes → Bool) → List Bytes × Bool
subscribe_all is_filter accepts = subscribe_loop is_filter accepts subscribe_topics
