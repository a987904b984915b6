-- ===== src/Sse/Delivered.antt =====
-- The stream as bytes: what a browser shows after them.
use jzf407_rust.Prelude.{
  ℕ, ◌+◌, ◌/◌, ◌^◌, ◌<◌, ◌≡◌, ◌≢◌, refl, sym, ap, ◌∙◌, Bool, true, false, List, [], ◌∷◌, ◌++◌,
  append_assoc, Bytes, bytes_eq, All, All-append, arith, Bool-cases, inl, inr, leb,
}
use jzf407_rust.Text.{codes}
use jzf407_rust.Text.Utf8.{concat}
use jzf407_rust.Text.Split.{
  Avoids, split, split_part, split-join, join-Avoids, join, strip_prefix, after_first,
}
use jzf407_rust.Text.Decimal.{Digits-Avoids, to_decimal, to_decimal-Digits}
use jzf407_rust.Sse.{
  Snapshot, snapshot_eq, event, keepalive, Stream, open_stream, stream_turn, keepalive_ms,
}
use jzf407_rust.Sse.Pushed.{snapshot_eq-eq}
use jzf407_rust.Sse.Writes.{bytes_of, Turn, loop_writes, serve_events}
use jzf407_rust.Sse.EventSource.{events_in, events, flag, body_of, read_state, page_after}
use jzf407_rust.Web.Page.State.{digit, write_event_complete}

-- A member of the object that holds a flag.
abbrev member : Bytes → Bool → Bytes
member name on = name ++ digit on

digit-Avoids : (sep : ℕ) (on : Bool) → sep < b'0' → Avoids sep (digit on)
digit-Avoids sep true h = omega (arith, h)
digit-Avoids sep false h = omega (arith, h)

member-Avoids :
    (sep : ℕ) (name : Bytes) (on : Bool)
    → Avoids sep name
    → sep < b'0'
    → Avoids sep (member name on)
member-Avoids sep name on h low =
    All-append (λ b. b ≢ sep) name (digit on) h (digit-Avoids sep on low)

abbrev uptime : ℕ → Bytes
uptime up = codes "\"up\":" ++ (to_decimal up ++ codes "}")

abbrev members : Snapshot → ℕ → List Bytes
members s up =
    member (codes "\"relay\":") s.relay
    ∷ member (codes "\"led1\":") s.led1_on
    ∷ member (codes "\"led2\":") s.led2_on
    ∷ member (codes "\"link\":") s.link
    ∷ member (codes "\"mqtt\":") s.mqtt
    ∷ uptime up
    ∷ []

-- The object of an event.
abbrev object : Snapshot → ℕ → Bytes
object s up = codes "{" ++ join b',' (members s up)

members-Avoids :
    (sep : ℕ) (s : Snapshot) (up : ℕ) → sep < b'0' → sep ≢ b'"' → All (Avoids sep) (members s up)
members-Avoids sep s up low n =
    let one = λ (name : Bytes) (on : Bool) (h : Avoids sep name). member-Avoids sep name on h low in
    (
      one (codes "\"relay\":") s.relay (omega (arith, low, n)),
      (
        one (codes "\"led1\":") s.led1_on (omega (arith, low, n)),
        (
          one (codes "\"led2\":") s.led2_on (omega (arith, low, n)),
          (
            one (codes "\"link\":") s.link (omega (arith, low, n)),
            (
              one (codes "\"mqtt\":") s.mqtt (omega (arith, low, n)),
              (
                All-append (λ b. b ≢ sep) (codes "\"up\":") (to_decimal up ++ codes "}")
                    (omega (arith, low, n))
                    (All-append (λ b. b ≢ sep) (to_decimal up) (codes "}")
                      (Digits-Avoids sep (to_decimal up) (inl low) (to_decimal-Digits up))
                      (omega (arith, low, n), tt)),
                tt,
              ),
            ),
          ),
        ),
      ),
    )

digit_back : (on : Bool) → bytes_eq (digit on) (codes "1") ≡ on
unfolding bytes_eq
digit_back true = refl
digit_back false = refl

-- The browser reads the flags from the object.
read_state-object : (s : Snapshot) (up : ℕ) → read_state (object s up) ≡ s
unfolding read_state flag strip_prefix
read_state-object s up =
    rw
      (
        split-join b',' _ _ (members-Avoids b',' s up (omega arith) (omega arith)),
        digit_back s.relay,
        digit_back s.led1_on,
        digit_back s.led2_on,
        digit_back s.link,
        digit_back s.mqtt,
      )
      refl

-- The line of an event.
abbrev line : Snapshot → ℕ → Bytes
line s up = codes "data: " ++ object s up

event_text :
    (s : Snapshot) (up : ℕ) (rest : Bytes)
    → up < 2 ^ 64
    → bytes_of (event s up) ++ rest ≡ line s up ++ (b'\n' ∷ b'\n' ∷ rest)
unfolding bytes_of concat
event_text s up rest h = rw (write_event_complete s up h) (simp append_assoc)

line-Avoids : (s : Snapshot) (up : ℕ) → Avoids b'\n' (line s up)
line-Avoids s up =
    All-append (λ b. b ≢ b'\n') (codes "data: {") (join b',' (members s up)) (omega arith)
      (join-Avoids b'\n' b',' (members s up) (omega arith)
        (members-Avoids b'\n' s up (omega arith) (omega arith)))

-- An event arrives as its object.
event_arrives :
    (s : Snapshot) (up : ℕ) (rest : Bytes)
    → up < 2 ^ 64
    → events (bytes_of (event s up) ++ rest) ≡ object s up ∷ events rest
unfolding events events_in strip_prefix
event_arrives s up rest h =
    rw
      (
        event_text s up rest h,
        split_part b'\n' (line s up) (b'\n' ∷ rest) (line-Avoids s up),
        split_part b'\n' [] rest tt,
      )
      refl

-- A comment is passed over.
keepalive_arrives : (rest : Bytes) → events (bytes_of keepalive ++ rest) ≡ events rest
unfolding events events_in strip_prefix bytes_of
keepalive_arrives rest =
    rw
      (
        split_part b'\n' (codes ": keepalive") (b'\n' ∷ rest) (omega arith),
        split_part b'\n' [] rest tt,
      )
      refl

-- The state that the last turn saw.
abbrev pub last_seen : Snapshot → List Turn → Snapshot
last_seen s [] = s
last_seen s (t ∷ later) = last_seen t.seen later

-- The socket takes what the turn writes, and the time is a `u64`.
pub record Taken (t : Turn) : Type 0 where
  pub takes : t.takes ≡ true
  pub clock_lt : t.clock < 2 ^ 64

-- An event shows its state.
event_shows :
    (page s : Snapshot) (ms : ℕ) (rest : Bytes)
    → ms < 2 ^ 64
    → page_after page (events (bytes_of (event s (ms / 1000)) ++ rest)) ≡ page_after s (events rest)
event_shows page s ms rest h =
    ap (page_after page) (event_arrives s (ms / 1000) rest (omega arith))
    ∙ ap (λ x. page_after x (events rest)) (read_state-object s (ms / 1000))

loop_follows :
    (turns : List Turn) (s : Stream)
    → All Taken turns
    → page_after s.last (events (concat (loop_writes turns s))) ≡ last_seen s.last turns
unfolding loop_writes stream_turn concat events events_in split
loop_follows [] s h = refl
loop_follows (t ∷ ts) s h = elim (Bool-cases (snapshot_eq t.seen s.last)) [
  | inr changed ↦
      rw (changed, h.0.takes)
        (event_shows s.last t.seen t.clock _ h.0.clock_lt
          ∙ loop_follows ts (record { last = t.seen; next_keepalive = t.clock + keepalive_ms }) h.1)
  | inl same ↦
      let seen = snapshot_eq-eq t.seen s.last same in
      elim (Bool-cases (leb s.next_keepalive t.clock)) [
        | inl due ↦
            rw (same, due, h.0.takes)
              (ap (page_after s.last) (keepalive_arrives _)
                ∙ loop_follows ts (record s { next_keepalive = t.clock + keepalive_ms }) h.1
                ∙ ap (λ x. last_seen x ts) (sym seen))
        | inr early ↦ rw (same, early) (loop_follows ts s h.1 ∙ ap (λ x. last_seen x ts) (sym seen))
      ]
]

-- The page follows the board: when the socket has taken all that `serve_events` wrote, a browser that
-- reads those bytes as an event stream, and the data of each event as JSON, shows the state that the
-- last turn saw, whatever it showed before. (The times are `u64`s.)
pub page_follows :
    (page : Snapshot) (first : Turn) (turns : List Turn)
    → All Taken (first ∷ turns)
    → page_after page (events (body_of (concat (serve_events true first turns))))
      ≡ last_seen first.seen turns
unfolding serve_events open_stream concat body_of after_first strip_prefix
page_follows page first turns h = rw h.0.takes (
    event_shows page first.seen first.clock _ h.0.clock_lt
    ∙ loop_follows turns (record { last = first.seen; next_keepalive = first.clock + keepalive_ms })
        h.1)
