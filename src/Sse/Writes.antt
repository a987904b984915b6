-- ===== src/Sse/Writes.antt =====
-- src/sse.rs: `serve_events` as what it writes to the socket, up to a write that fails.
use jzf407_rust.Prelude.{ℕ, Bool, true, false, Option, none, some, List, [], ◌∷◌, Bytes}
use jzf407_rust.Text.{codes}
use jzf407_rust.Sse.{Snapshot, Written, event, keepalive, Stream, open_stream, stream_turn}
use jzf407_rust.Web.Page.State.{write_event}

abbrev pub sse_head : Bytes
sse_head =
    codes
      "HTTP/1.1 200 OK\r\nContent-Type: text/event-stream\r\nCache-Control: no-cache\r\nConnection: keep-alive\r\nX-Accel-Buffering: no\r\n\r\n"

-- The bytes of a write; the buffer of an event has 128 bytes.
unfoldable pub bytes_of : Written → Bytes
bytes_of (event s up) = write_event 128 s up
bytes_of keepalive = codes ": keepalive\n\n"

-- One turn of the loop: the state that it samples, its time in milliseconds, and whether the socket
-- takes what it writes.
pub record Turn : Type 0 where
  pub seen : Snapshot
  pub clock : ℕ
  pub takes : Bool

abbrev after_turn : Option Written → Bool → List Bytes → List Bytes
after_turn none takes rest = rest
after_turn (some w) true rest = bytes_of w ∷ rest
after_turn (some w) false rest = bytes_of w ∷ []

-- The loop, for as many turns as there are: nothing is written after a write that failed.
unfoldable pub loop_writes : List Turn → Stream → List Bytes
loop_writes [] s = []
loop_writes (t ∷ ts) s =
    let step = stream_turn t.seen t.clock s in
    let rest = loop_writes ts step.0 in after_turn step.1 t.takes rest

-- `serve_events`: the head, the first event, and the loop.
unfoldable pub serve_events : Bool → Turn → List Turn → List Bytes
serve_events false first turns = sse_head ∷ []
serve_events true first turns =
    let begun = open_stream first.seen first.clock in
    sse_head ∷ after_turn (some begun.1) first.takes (loop_writes turns begun.0)
