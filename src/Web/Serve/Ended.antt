-- ===== src/Web/Serve/Ended.antt =====
-- A session that has ended, or that a newer login took over, does not come back.
mod Tests
use jzf407_rust.Prelude.{
  ℕ, ◌≡◌, ◌≢◌, refl, sym, ap, ◌∙◌, true, false, Option, none, some, some_inj, Bytes, inl, inr,
}
use jzf407_rust.Eeprom.{Bus, Cell}
use jzf407_rust.Web.{value, SessionState, Clock, Reply, logged_in}
use jzf407_rust.Web.Request.{ParsedRequest, parse_request, extract_cookie}
use jzf407_rust.Web.Session.{cookie_name, token, parsed_cookie, validate_session}
use jzf407_rust.Web.Session.Accepts.{Carries, validate_session_iff, value_inj}
use jzf407_rust.Web.Login.{handle_unauthenticated}
use jzf407_rust.Web.Login.Ended.{Lacks, validate_session-Lacks, unauthenticated-Lacks}
use jzf407_rust.Web.Serve.Gate.{IsPublic, answered_publicly}
use jzf407_rust.Web.Serve.{Server, Served, log_out, route_authenticated, serve_connection}
use jzf407_rust.Web.Serve.Cases.{
  Came, unread, unreadable, unguarded, passed, refused, came, routed-session,
}

module _ (bus : Bus) (server : Server) (old : ℕ) where
  -- `Onward s s'`: connections that were served one after the other, at any times and with any EEPROM,
  -- lead from `s` to `s'`, and none was answered with a login that hands out the token `old`.
  pub data Onward : SessionState → SessionState → Type 0 where
    here : (s : SessionState) → Onward s s
    then_served :
        {s t : SessionState} (got : Option Bytes) (clock : Clock) (cell : Cell bus)
        (out : Served bus)
        → Onward s t
        → serve_connection bus server got clock t cell ≡ value out
        → out.reply ≢ logged_in old
        → Onward s out.session

  routed-Lacks :
      (r : ParsedRequest) (s : SessionState) (cell : Cell bus)
      → old ≢ 0
      → token s ≢ old
      → token (route_authenticated bus r server.cfg s cell).session ≢ old
  unfolding log_out token
  routed-Lacks r s cell some_token l = elim (routed-session bus server r s cell) [
    | inl h ↦ rw h l
    | inr h ↦ rw h (λ e. some_token (sym e))
  ]

  connection-Lacks :
      (clock : Clock) (s : SessionState) (cell : Cell bus) (out : Served bus) (got : Option Bytes)
      → old ≢ 0
      → token s ≢ old
      → out.reply ≢ logged_in old
      → Came bus server clock s cell out got
      → token out.session ≢ old
  connection-Lacks clock s cell out got n l other (unread g e) = rw e l
  connection-Lacks clock s cell out got n l other (unreadable g e) = rw e l
  connection-Lacks clock s cell out got n l other (unguarded req off e) =
      rw e (routed-Lacks (parse_request req) s cell n l)
  connection-Lacks clock s cell out got n l other (passed req t v e) = rw e (
      routed-Lacks (parse_request req) t cell n
        (validate_session-Lacks old n req _ (clock 0) s (t, true) l v))
  connection-Lacks clock s cell out got n l other (refused req t sent v h e) = rw e (
      unauthenticated-Lacks old n (parse_request req) server.expected_token server.token_seed clock
        t sent (validate_session-Lacks old n req _ (clock 0) s (t, false) l v) h (rw e at other))

  Onward-Lacks : {s s' : SessionState} → Onward s s' → old ≢ 0 → token s ≢ old → token s' ≢ old
  Onward-Lacks (here s) n l = l
  Onward-Lacks (then_served {s} {t} got clock cell out before e other) n l =
      connection-Lacks clock t cell out got n (Onward-Lacks before n l) other
        (came bus server clock t cell got out e)

  -- A token that is not the session's (because its user logged out, it expired, or someone logged in
  -- after it) opens nothing any more: after any further connections, none of them a login that hands
  -- out the same token again, a request whose cookie spells it leaves the EEPROM, does not restart
  -- the board, and gets an answer that needs no session. (The server asks for a login.)
  pub old_cookie_opens_nothing :
      (s s' : SessionState) (clock : Clock) (cell : Cell bus) (req cookie : Bytes)
      (out : Served bus)
      → server.auth_required ≡ true
      → old ≢ 0
      → token s ≢ old
      → Onward s s'
      → extract_cookie req cookie_name ≡ value (some cookie)
      → parsed_cookie cookie ≡ some old
      → serve_connection bus server (some req) clock s' cell ≡ value out
      → (out.eeprom ≡ cell) × (out.restarts ≡ false) × IsPublic out.reply
  old_cookie_opens_nothing s s' clock cell req cookie out on n gone onward sent spells e =
      elim (answered_publicly bus server clock s' cell req out on e) [
        | inr opens ↦ opens
        | inl c ↦
            let same : some c.cookie ≡ some cookie = value_inj (sym c.sent ∙ sent) in
            absurd (
              Onward-Lacks onward n gone
                (some_inj (sym c.spells ∙ ap parsed_cookie (some_inj same) ∙ spells)))
      ]
