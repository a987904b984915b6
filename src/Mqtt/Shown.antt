-- ===== src/Mqtt/Shown.antt =====
-- A command over MQTT, as an open page shows it.
use jzf407_rust.Prelude.{
  ℕ, ◌<◌, ◌^◌, ◌≡◌, refl, ap, ◌∙◌, Bool, true, false, some, List, [], ◌∷◌, ◌++◌, Bytes, All,
  All-append,
}
use jzf407_rust.Text.Utf8.{concat}
use jzf407_rust.Eeprom.{Bus}
use jzf407_rust.Outputs.{OutputPins, SharedOutputs, set, get_led}
use jzf407_rust.Outputs as Out
use jzf407_rust.Outputs.Pins.{get_led-set}
use jzf407_rust.LedDispatch.{parse_bool}
use jzf407_rust.Mqtt.{Device, Handled, perform, handle_event}
use jzf407_rust.Mqtt.Stored.{message, handled}
use jzf407_rust.Sse.{Snapshot, sample}
use jzf407_rust.Sse.Writes.{Turn, serve_events}
use jzf407_rust.Sse.EventSource.{body_of, events, page_after}
use jzf407_rust.Sse.Delivered.{last_seen, Taken, page_follows}

last_seen-snoc :
    (first : Snapshot) (turns : List Turn) (t : Turn) → last_seen first (turns ++ t ∷ []) ≡ t.seen
last_seen-snoc first [] t = refl
last_seen-snoc first (u ∷ turns) t = last_seen-snoc u.seen turns t

sample-set :
    (on link mqtt : Bool) (o : SharedOutputs) (pins : OutputPins)
    → o.held ≡ false
    → o.pins ≡ some pins
    → sample (set Out.led1 on o) link mqtt ≡ record (sample o link mqtt) { led1_on = on }
unfolding sample
sample-set on link mqtt o pins free has =
    let (own, other, relay) = get_led-set Out.led1 Out.led2 on o pins (λ e. cc) free has in
    rw (own, other, relay) refl

-- A switched LED is on every page: after a message on `stm32/led/1` that is not retained and spells a
-- level, the next turn of a stream makes its page show that level, and the outputs, the link and the
-- connection to the broker otherwise as they were sampled before the message. (The pins are
-- registered and not locked, the socket has taken all writes, and the times are `u64`s.)
pub led_command_shown :
    (bus : Bus) (dev : Device bus) (on link mqtt : Bool) (payload : Bytes) (pins : OutputPins)
    (page : Snapshot) (first : Turn) (turns : List Turn) (now : ℕ)
    → parse_bool payload ≡ some on
    → dev.outputs.held ≡ false
    → dev.outputs.pins ≡ some pins
    → All Taken (first ∷ turns)
    → now < 2 ^ 64
    → page_after page (
        events (
          body_of (
            concat (
              serve_events true first (
                turns
                ++ record {
                  seen = sample (handle_event bus (message payload) dev).device.outputs link mqtt;
                  clock = now;
                  takes = true;
                }
                  ∷ [])))))
      ≡ record (sample dev.outputs link mqtt) { led1_on = on }
unfolding perform
led_command_shown bus dev on link mqtt payload pins page first turns now says free has taken small =
    let after = sample (handle_event bus (message payload) dev).device.outputs link mqtt in
    let turn : Turn = record { seen = after; clock = now; takes = true } in
    page_follows page first (turns ++ turn ∷ []) (
      taken.0,
      All-append Taken turns (turn ∷ []) taken.1 (record { takes = refl; clock_lt = small }, tt),
    )
    ∙ last_seen-snoc first.seen turns turn
    ∙ ap (λ (h : Handled bus). sample h.device.outputs link mqtt) (handled bus dev on payload says)
    ∙ sample-set on link mqtt dev.outputs pins free has
