-- ===== src/Sse/Pushed.antt =====
-- The page always knows the state of the last turn, and never waits longer than the keep-alive.
use jzf407_rust.Prelude.{
  ℕ, ◌+◌, ◌/◌, ◌≤◌, ◌≡◌, refl, sym, ◌∙◌, true, Option, none, some, leb, arith, Bool-cases, inl, inr,
}
use jzf407_rust.Sse.{
  Snapshot, snapshot_eq, Written, event, keepalive, Stream, open_stream, stream_turn, keepalive_ms,
}

-- What a page shows after what it was sent: the last event. Comments change nothing.
abbrev pub shown : Snapshot → Option Written → Snapshot
shown page (some (event s up)) = s
shown page (some keepalive) = page
shown page none = page

pub snapshot_eq-eq : (a b : Snapshot) → snapshot_eq a b ≡ true → a ≡ b
unfolding snapshot_eq
snapshot_eq-eq a b h = ground arith

-- `Streamed t s page`: a stream that was opened and whose turns came at later and later times is in
-- the state `s` after the turn at `t`, and the page shows `page`.
pub data Streamed : ℕ → Stream → Snapshot → Type 0 where
  opened : (first : Snapshot) (now : ℕ) → Streamed now (open_stream first now).0 first
  turned :
      {now : ℕ} {s : Stream} {page : Snapshot} (state : Snapshot) (later : ℕ)
      → Streamed now s page
      → now ≤ later
      → Streamed later (stream_turn state later s).0 (shown page (stream_turn state later s).1)

shows_last : {now : ℕ} {s : Stream} {page : Snapshot} → Streamed now s page → s.last ≡ page
unfolding open_stream stream_turn
shows_last (opened first now) = refl
shows_last (turned {now} {s} {page} state later before le) =
    let ih = shows_last before in
    elim (Bool-cases (snapshot_eq state s.last)) [
      | inr h ↦ rw h refl
      | inl h ↦ elim (Bool-cases (leb s.next_keepalive later)) [
        | inl k ↦ rw (h, k) ih
        | inr k ↦ rw (h, k) ih
      ]
    ]

-- After every turn of a stream the page shows the state that the turn saw, whatever it showed
-- before: a change is pushed at once, and nothing else changes the page.
pub page_shows_state :
    {now : ℕ} {s : Stream} {page : Snapshot} (state : Snapshot) (later : ℕ)
    → Streamed now s page
    → shown page (stream_turn state later s).1 ≡ state
unfolding stream_turn
page_shows_state {now} {s} {page} state later before =
    let ih = shows_last before in
    elim (Bool-cases (snapshot_eq state s.last)) [
      | inr h ↦ rw h refl
      | inl h ↦
          let kept = sym ih ∙ sym (snapshot_eq-eq state s.last h) in
          elim (Bool-cases (leb s.next_keepalive later)) [
            | inl k ↦ rw (h, k) kept
            | inr k ↦ rw (h, k) kept
          ]
    ]

due :
    {now : ℕ} {s : Stream} {page : Snapshot}
    → Streamed now s page
    → s.next_keepalive ≤ now + keepalive_ms
unfolding open_stream stream_turn
due (opened first now) = omega arith
due (turned {now} {s} {page} state later before le) =
    let ih = due before in
    elim (Bool-cases (snapshot_eq state s.last)) [
      | inr h ↦ rw h (omega arith)
      | inl h ↦ elim (Bool-cases (leb s.next_keepalive later)) [
        | inl k ↦ rw (h, k) (omega arith)
        | inr k ↦ rw (h, k) (omega arith)
      ]
    ]

-- A turn 15 s or more after the one before writes something, so that a dead connection is noticed.
pub never_silent :
    {now : ℕ} {s : Stream} {page : Snapshot} (state : Snapshot) (later : ℕ)
    → Streamed now s page
    → now + keepalive_ms ≤ later
    → (w : Written) × ((stream_turn state later s).1 ≡ some w)
unfolding stream_turn
never_silent {now} {s} state later before late =
    let soon = due before in
    let over : leb s.next_keepalive later ≡ true = ground arith in
    elim (Bool-cases (snapshot_eq state s.last)) [
      | inl h ↦ (keepalive, rw (h, over) refl)
      | inr h ↦ (event state (later / 1000), rw h refl)
    ]
