-- ===== src/Web/Serve/Gate.antt =====
-- What a request without a session can do: nothing but see the login and try it.
use jzf407_rust.Prelude.{
  ℕ, ◌≡◌, ◌⊎◌, inl, inr, ap, subst, true, false, ◌&&◌, some, [], Bytes, bytes_eq, Bool-cases,
  Option, refl, unwrap_or,
}
use jzf407_rust.Text.{codes}
use jzf407_rust.Eeprom.{Bus, Cell}
use jzf407_rust.Web.{
  panic, value, SessionState, Clock, Reply, nothing, http_400, http_401_login, logged_in,
  login_form,
}
use jzf407_rust.Web.Request.{ParsedRequest, parse_request, refreshes_session, extract_cookie}
use jzf407_rust.Web.Session.Accepts.{Carries, validate_session_iff, Run-cases, value_inj}
use jzf407_rust.Web.Login.{
  login_is_locked, login_credentials_match, complete_login, reject_login, handle_login,
  show_login_form, handle_unauthenticated,
}
use jzf407_rust.Web.Serve.Cases.{Came, unread, unreadable, unguarded, passed, refused, came}
use jzf407_rust.Web.Serve.{Server, Served, serve_connection}

-- The answers that need no session.
abbrev pub IsPublic : Reply → Type 0
IsPublic nothing = Unit
IsPublic http_400 = Unit
IsPublic http_401_login = Unit
IsPublic (logged_in t) = Unit
IsPublic (login_form st m) = Unit
IsPublic _ = ⊥

handle_login-IsPublic :
    (r : ParsedRequest) (expected : Bytes) (seed : ℕ) (clock : Clock) (s : SessionState)
    → IsPublic (handle_login r expected seed clock s).1
unfolding handle_login complete_login reject_login
handle_login-IsPublic r expected seed clock s =
    elim (Bool-cases (login_is_locked (clock 1) s.fail_count s.fail_last)) [
      | inl h ↦ rw h tt
      | inr h ↦ elim (Bool-cases (login_credentials_match r expected)) [
        | inl k ↦ rw (h, k) tt
        | inr k ↦ rw (h, k) tt
      ]
    ]

unauthenticated-IsPublic :
    (r : ParsedRequest) (expected : Bytes) (seed : ℕ) (clock : Clock) (s s' : SessionState)
    (reply : Reply)
    → handle_unauthenticated r expected seed clock s ≡ value (s', reply)
    → IsPublic reply
unfolding handle_unauthenticated show_login_form
unauthenticated-IsPublic r expected seed clock s s' reply e =
    elim (Bool-cases (bytes_eq r.method (codes "POST") && bytes_eq r.path (codes "/login"))) [
      | inl h ↦
          subst IsPublic (ap (λ (p : SessionState × Reply). p.1) (value_inj (rw h at e)))
            (handle_login-IsPublic r expected seed clock s)
      | inr h ↦ elim (Bool-cases (bytes_eq r.path (codes "/events"))) [
        | inl k ↦
            subst IsPublic (ap (λ (p : SessionState × Reply). p.1) (value_inj (rw (h, k) at e))) tt
        | inr k ↦ elim (Run-cases (extract_cookie r.raw (codes "jzf_session"))) [
          | inl l ↦ cc (rw (h, k, l) at e)
          | inr (c, l) ↦
              subst IsPublic
                (ap (λ (p : SessionState × Reply). p.1) (value_inj (rw (h, k, l) at e))) tt
        ]
      ]
    ]

module _ (bus : Bus) (server : Server) (clock : Clock) (s : SessionState) (cell : Cell bus) where
  abbrev pub Passes : Bytes → Type 0
  Passes req = Carries req (clock 0) s

  abbrev Outcome : Bytes → Served bus → Type 0
  Outcome req out = Passes req ⊎ ((out.eeprom ≡ cell) × (out.restarts ≡ false) × IsPublic out.reply)

  -- A request that is answered.
  pub answered_publicly :
      (req : Bytes) (out : Served bus)
      → server.auth_required ≡ true
      → serve_connection bus server (some req) clock s cell ≡ value out
      → Outcome req out
  answered_publicly req out on e =
      by_way (some req) out on (came bus server clock s cell (some req) out e)
    where
      by_way :
          (got : Option Bytes) (o : Served bus)
          → server.auth_required ≡ true
          → Came bus server clock s cell o got
          → Outcome (unwrap_or got []) o
      by_way got o on (unread g e) = inr (rw e (refl, refl, tt))
      by_way got o on (unreadable g e) = inr (rw e (refl, refl, tt))
      by_way got o on (unguarded r off e) = cc
      by_way got o on (passed r t v e) =
          inl ((validate_session_iff r (refreshes_session (parse_request r)) (clock 0) s t).0 v).0
      by_way got o on (refused r t (t', reply) v h e) = inr (
          rw e (
            refl,
            refl,
            unauthenticated-IsPublic (parse_request r) server.expected_token server.token_seed clock
                t t' reply h,
          ))

  -- Where a login is set up, a request that does not carry the token of a live session either makes
  -- the code panic, or is answered, and then it leaves the EEPROM, does not ask for a restart, and
  -- the answer is the login form, a bare 401 or 400, nothing, or the answer to a login: no page, no
  -- state and no stored value.
  pub session_needed :
      (req : Bytes)
      → server.auth_required ≡ true
      → Passes req
        ⊎ ((serve_connection bus server (some req) clock s cell ≡ panic)
            ⊎ ((out : Served bus) × (serve_connection bus server (some req) clock s cell
                  ≡ value out)
                × (out.eeprom ≡ cell)
                × (out.restarts ≡ false)
                × IsPublic out.reply))
  session_needed req on = elim (Run-cases (serve_connection bus server (some req) clock s cell)) [
    | inl h ↦ inr (inl h)
    | inr (out, h) ↦ elim (answered_publicly req out on h) [
      | inl passes ↦ inl passes
      | inr left ↦ inr (inr (out, h, left.0, left.1, left.2))
    ]
  ]
