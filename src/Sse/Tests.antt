-- ===== src/Sse/Tests.antt =====
-- A stream with one change, and a comment after it.
use jzf407_rust.Prelude.{◌≡◌, refl, true, false, some, [], ◌∷◌, arith}
use jzf407_rust.Text.Utf8.{concat}
use jzf407_rust.Sse.{Snapshot, Stream, snapshot_eq, keepalive, open_stream, stream_turn}
use jzf407_rust.Sse.Writes.{Turn, serve_events}
use jzf407_rust.Sse.EventSource.{body_of, events, page_after}
use jzf407_rust.Sse.Delivered.{page_follows}

abbrev dark : Snapshot
dark = record { relay = false; led1_on = false; led2_on = false; link = true; mqtt = false }

abbrev online : Snapshot
online = record dark { mqtt = true }

abbrev first : Stream
first = (open_stream dark 1000).0

kept_alive : (stream_turn dark 16000 first).1 ≡ some keepalive
unfolding stream_turn open_stream snapshot_eq
kept_alive = refl

abbrev opening : Turn
opening = record { seen = dark; clock = 1000; takes = true }

abbrev change : Turn
change = record { seen = online; clock = 1150; takes = true }

abbrev quiet : Turn
quiet = record { seen = online; clock = 17000; takes = true }

page_follows_example :
    page_after dark (events (body_of (concat (serve_events true opening (change ∷ quiet ∷ [])))))
    ≡ online
page_follows_example = page_follows dark opening (change ∷ quiet ∷ []) (
  record { takes = refl; clock_lt = omega arith },
  (
    record { takes = refl; clock_lt = omega arith },
    (record { takes = refl; clock_lt = omega arith }, tt),
  ),
)
