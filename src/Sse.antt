-- ===== src/Sse.antt =====
-- src/sse.rs: the stream of state changes that the dashboard listens to.
pub mod Pushed
pub mod Writes
pub mod EventSource
pub mod Delivered
mod Tests
use jzf407_rust.Prelude.{
  ℕ, ◌+◌, ◌/◌, Bool, true, false, not, ◌&&◌, Option, none, some, List, [], ◌∷◌, Bytes, leb,
  if◌then◌else◌,
}
use jzf407_rust.Text.{codes}
use jzf407_rust.Outputs.{led1, led2, SharedOutputs, get_relay, get_led}

abbrev pub keepalive_ms : ℕ
keepalive_ms = 15000

pub record Snapshot : Type 0 where
  pub relay : Bool
  pub led1_on : Bool
  pub led2_on : Bool
  pub link : Bool
  pub mqtt : Bool

-- `Snapshot::sample`; the link and `MQTT_ONLINE` are what the stack and the MQTT task say.
unfoldable pub sample : SharedOutputs → Bool → Bool → Snapshot
sample outputs link mqtt = record {
  relay = get_relay outputs;
  led1_on = get_led led1 outputs;
  led2_on = get_led led2 outputs;
  link = link;
  mqtt = mqtt;
}

abbrev same : Bool → Bool → Bool
same true b = b
same false b = not b

-- The derived `==`.
unfoldable pub snapshot_eq : Snapshot → Snapshot → Bool
snapshot_eq a b =
    same a.relay b.relay
    && same a.led1_on b.led1_on
    && same a.led2_on b.led2_on
    && same a.link b.link
    && same a.mqtt b.mqtt

-- What is written to the socket: an event, with the uptime in it, or the keep-alive comment.
-- The uptime is in seconds.
pub data Written : Type 0 where
  event : Snapshot → ℕ → Written
  keepalive : Written

-- The state of the loop: the snapshot sent last, and when the next keep-alive is due.
pub record Stream : Type 0 where
  pub last : Snapshot
  pub next_keepalive : ℕ

-- Before the loop: the first event, and the state that the loop starts with.
unfoldable pub open_stream : Snapshot → ℕ → Stream × Written
open_stream first now =
    (record { last = first; next_keepalive = now + keepalive_ms }, event first (now / 1000))

-- One turn of the loop, at a time in milliseconds that stands for its readings of the clock, and what
-- it writes; the loop ends when that write fails.
unfoldable pub stream_turn : Snapshot → ℕ → Stream → Stream × Option Written
stream_turn now_state now s =
    if not (snapshot_eq now_state s.last)
    then (
      record { last = now_state; next_keepalive = now + keepalive_ms },
      some (event now_state (now / 1000)),
    )
    else (if leb s.next_keepalive now
        then (record s { next_keepalive = now + keepalive_ms }, some keepalive)
        else (s, none))
