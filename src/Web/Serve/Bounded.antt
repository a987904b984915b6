-- ===== src/Web/Serve/Bounded.antt =====
-- The five atomics stay in their ranges whatever is served, and the failure counter never wraps.
use jzf407_rust.Prelude.{◌≡◌, sym, subst, true, false, Option, Bytes, arith, inl, inr}
use jzf407_rust.Eeprom.{Bus, Cell}
use jzf407_rust.Web.{value, SessionState, initial, Clock}
use jzf407_rust.Web.Request.{ParsedRequest, parse_request}
use jzf407_rust.Web.Login.Bounded.{IsBounded, validate_session-IsBounded, unauthenticated-IsBounded}
use jzf407_rust.Web.Serve.Cases.{
  Came, unread, unreadable, unguarded, passed, refused, came, routed-session,
}
use jzf407_rust.Web.Serve.{Server, Served, log_out, route_authenticated, serve_connection}

log_out-IsBounded : (s : SessionState) → IsBounded s → IsBounded (log_out s)
unfolding log_out
log_out-IsBounded s i = record {
  token_hi_lt = omega arith;
  token_lo_lt = omega arith;
  created_lt = omega arith;
  fail_last_lt = i.fail_last_lt;
  fail_count_le = i.fail_count_le;
}

module _ (bus : Bus) (server : Server) where
  routed-IsBounded :
      (r : ParsedRequest) (s : SessionState) (cell : Cell bus)
      → IsBounded s
      → IsBounded (route_authenticated bus r server.cfg s cell).session
  routed-IsBounded r s cell i = elim (routed-session bus server r s cell) [
    | inl h ↦ subst IsBounded (sym h) i
    | inr h ↦ subst IsBounded (sym h) (log_out-IsBounded s i)
  ]

  connection-IsBounded :
      (clock : Clock) (s : SessionState) (cell : Cell bus) (out : Served bus) (got : Option Bytes)
      → IsBounded s
      → Came bus server clock s cell out got
      → IsBounded out.session
  connection-IsBounded clock s cell out got i (unread g e) = rw e i
  connection-IsBounded clock s cell out got i (unreadable g e) = rw e i
  connection-IsBounded clock s cell out got i (unguarded req off e) =
      rw e (routed-IsBounded (parse_request req) s cell i)
  connection-IsBounded clock s cell out got i (passed req t v e) = rw e (
      routed-IsBounded (parse_request req) t cell
        (validate_session-IsBounded req _ (clock 0) s (t, true) i v))
  connection-IsBounded clock s cell out got i (refused req t sent v h e) = rw e (
      unauthenticated-IsBounded (parse_request req) server.expected_token server.token_seed clock t
        sent (validate_session-IsBounded req _ (clock 0) s (t, false) i v) h)

  -- `Reached s`: served connections, in any order and at any times, lead from the start to `s`.
  pub data Reached : SessionState → Type 0 where
    start : Reached initial
    served :
        {s : SessionState} (got : Option Bytes) (clock : Clock) (cell : Cell bus) (out : Served bus)
        → Reached s
        → serve_connection bus server got clock s cell ≡ value out
        → Reached out.session

  -- In every state that the server can reach the token halves and the times fit their 32 bits, and
  -- at most five failed logins are counted, so that the counter never wraps.
  pub Reached-IsBounded : {s : SessionState} → Reached s → IsBounded s
  Reached-IsBounded start = record {
    token_hi_lt = omega arith;
    token_lo_lt = omega arith;
    created_lt = omega arith;
    fail_last_lt = omega arith;
    fail_count_le = omega arith;
  }
  Reached-IsBounded (served {s} got clock cell out before e) =
      connection-IsBounded clock s cell out got (Reached-IsBounded before)
        (came bus server clock s cell got out e)
