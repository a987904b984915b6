-- ===== src/Web/Serve/Public.antt =====
-- What somebody without a session can read: bytes that do not depend on the board.
use jzf407_rust.Prelude.{
  ℕ, ◌≡◌, refl, inl, inr, ◌≢◌, true, List, Bytes, some, Option, none, false, ap, Bool-cases, [],
  ◌∷◌,
}
use jzf407_rust.Eeprom.{Bus, Cell}
use jzf407_rust.NetConfig.{NetworkConfig}
use jzf407_rust.Web.{
  Run, panic, value, ◌>>=◌, SessionState, Clock, Reply, nothing, http_400, http_401_login,
  logged_in, login_form, http_404, http_500, http_303_home, http_303_logout, dashboard,
  event_stream, state_json, rebooting_page, saved_page,
}
use jzf407_rust.Web.Page.{View}
use jzf407_rust.Web.Page.Answer.{written}
use jzf407_rust.Text.Utf8.{valid_utf8}
use jzf407_rust.Web.Request.{ParsedRequest, parse_request, refreshes_session}
use jzf407_rust.Web.Session.{validate_session}
use jzf407_rust.Web.Session.Accepts.{Carries, Run-cases, value_inj, validate_session_iff}
use jzf407_rust.Web.Login.{authenticate_request, let_pass, handle_unauthenticated}
use jzf407_rust.Web.Serve.{
  Server, Served, start_server, serve_request, finish_request, serve_connection,
}
use jzf407_rust.Web.Serve.Gate.{IsPublic, answered_publicly}

module _ (cfg cfg' : NetworkConfig) (v v' : View) (up up' : ℕ) (events events' : List Bytes) where
  abbrev pub Same : Reply → Type 0
  Same reply = written cfg v up events reply ≡ written cfg' v' up' events' reply

  public-Same : (reply : Reply) → IsPublic reply → Same reply
  unfolding written
  public-Same nothing h = refl
  public-Same http_400 h = refl
  public-Same http_401_login h = refl
  public-Same (logged_in t) h = refl
  public-Same (login_form st m) h = refl
  public-Same http_404 h = absurd h
  public-Same http_500 h = absurd h
  public-Same http_303_home h = absurd h
  public-Same http_303_logout h = absurd h
  public-Same dashboard h = absurd h
  public-Same event_stream h = absurd h
  public-Same state_json h = absurd h
  public-Same rebooting_page h = absurd h
  public-Same saved_page h = absurd h

-- Two servers that ask for the same login.
record SameLogin (server server' : Server) : Type 0 where
  required : server.auth_required ≡ server'.auth_required
  expected : server.expected_token ≡ server'.expected_token
  seed : server.token_seed ≡ server'.token_seed

start_server-SameLogin :
    (cfg cfg' : NetworkConfig) (now : ℕ)
    → cfg.web_user ≡ cfg'.web_user
    → cfg.web_pass ≡ cfg'.web_pass
    → SameLogin (start_server cfg now) (start_server cfg' now)
unfolding start_server
start_server-SameLogin cfg cfg' now u p = record {
  required = rw (u, p) refl;
  expected = rw (u, p) refl;
  seed = refl;
}

-- Both panic, or both leave the same session and answer alike.
abbrev Alike : {bus : Bus} → Run (Served bus) → Run (Served bus) → Type 0
Alike panic panic = Unit
Alike (value out) (value out') = (out.session ≡ out'.session) × (out.reply ≡ out'.reply)
Alike got got' = ⊥

-- A request that gets past the login carries the token of a live session.
through-Passes :
    (bus : Bus) (server : Server) (clock : Clock) (s t : SessionState) (cell : Cell bus)
    (r : ParsedRequest)
    → authenticate_request r true server.expected_token server.token_seed clock s ≡ value (t, none)
    → Carries r.raw (clock 0) s
unfolding authenticate_request let_pass
through-Passes bus server clock s t cell r e =
    elim (Run-cases (validate_session r.raw (refreshes_session r) (clock 0) s)) [
      | inl h ↦ cc (rw h at e)
      | inr ((u, true), h) ↦
          ((validate_session_iff r.raw (refreshes_session r) (clock 0) s u).0 h).0
      | inr ((u, false), h) ↦
          elim (Run-cases
            (handle_unauthenticated r server.expected_token server.token_seed clock u)) [
              | inl k ↦ cc (rw (h, k) at e)
              | inr (sent, k) ↦
                  cc (ap (λ (p : SessionState × Option Reply). p.1) (value_inj (rw (h, k) at e)))
            ]
    ]

module _ (bus : Bus) (clock : Clock) (s : SessionState) (cell cell' : Cell bus) where
  answers_Alike :
      (server server' : Server) (r : ParsedRequest) (o : Run (SessionState × Option Reply))
      → ((t : SessionState) → o ≢ value (t, none))
      → Alike
          (o >>= λ p. value (finish_request bus r server.cfg cell p))
          (o >>= λ p. value (finish_request bus r server'.cfg cell' p))
  unfolding finish_request
  answers_Alike server server' r panic h = tt
  answers_Alike server server' r (value (t, some reply)) h = (refl, refl)
  answers_Alike server server' r (value (t, none)) h = absurd (h t refl)

  request_Alike :
      (server server' : Server) (req : Bytes)
      → SameLogin server server'
      → server.auth_required ≡ true
      → ¬ Carries req (clock 0) s
      → Alike
          (serve_request bus server req clock s cell)
          (serve_request bus server' req clock s cell')
  unfolding serve_request parse_request
  request_Alike server server' req same on out =
      rw (← same.required, ← same.expected, ← same.seed, on)
        (answers_Alike server server' (parse_request req)
          (authenticate_request (parse_request req) true server.expected_token server.token_seed
            clock s)
          (λ t e. out (through-Passes bus server clock s t cell (parse_request req) e)))

  connection_Alike :
      (server server' : Server) (req : Bytes)
      → SameLogin server server'
      → server.auth_required ≡ true
      → ¬ Carries req (clock 0) s
      → Alike
          (serve_connection bus server (some req) clock s cell)
          (serve_connection bus server' (some req) clock s cell')
  unfolding serve_connection
  connection_Alike server server' [] same on out = (refl, refl)
  connection_Alike server server' (b ∷ rest) same on out =
      elim (Bool-cases (valid_utf8 (b ∷ rest))) [
        | inl h ↦ rw h (request_Alike server server' (b ∷ rest) same on out)
        | inr h ↦ rw h (refl, refl)
      ]

-- What somebody outside sees of a request: nothing if the code panics, else the session that is left
-- and the bytes of the answer.
abbrev pub seen :
    {bus : Bus}
    → NetworkConfig
    → View
    → ℕ
    → List Bytes
    → Run (Served bus)
    → Option (SessionState × List Bytes)
seen cfg v up events panic = none
seen cfg v up events (value out) = some (out.session, written cfg v up events out.reply)

module _ (cfg cfg' : NetworkConfig) (v v' : View) (up up' : ℕ) (events events' : List Bytes) where
  seen-Alike :
      {bus : Bus} (got got' : Run (Served bus))
      → Alike got got'
      → ((out : Served bus) → got ≡ value out → IsPublic out.reply)
      → seen cfg v up events got ≡ seen cfg' v' up' events' got'
  seen-Alike panic panic a h = refl
  seen-Alike panic (value out') a h = absurd a
  seen-Alike (value out) panic a h = absurd a
  seen-Alike (value out) (value out') a h =
      let same = public-Same cfg cfg' v v' up up' events events' out.reply (h out refl) in
      rw (same, ← a.1, ← a.0) refl

  -- Without a session nothing of the board can be read: for two configurations with the same web
  -- login, and whatever else the configurations, the EEPROMs, the outputs, the link, the reset reasons
  -- and the uptimes are, a request that does not carry the token of a live session leaves the same
  -- session and is answered with the same bytes, or panics for both. (A login is set up, both servers
  -- started at the same time, and the session and the times at which the request is served are the same.)
  pub nothing_leaks :
      (bus : Bus) (clock : Clock) (s : SessionState) (cell cell' : Cell bus) (req : Bytes) (now : ℕ)
      → (start_server cfg now).auth_required ≡ true
      → cfg.web_user ≡ cfg'.web_user
      → cfg.web_pass ≡ cfg'.web_pass
      → ¬ Carries req (clock 0) s
      → seen cfg v up events (serve_connection bus (start_server cfg now) (some req) clock s cell)
        ≡ seen cfg' v' up' events'
            (serve_connection bus (start_server cfg' now) (some req) clock s cell')
  nothing_leaks bus clock s cell cell' req now on u p out =
      seen-Alike _ _
        (connection_Alike bus clock s cell cell' (start_server cfg now) (start_server cfg' now) req
          (start_server-SameLogin cfg cfg' now u p) on out)
        (λ o e. elim (answered_publicly bus (start_server cfg now) clock s cell req o on e) [
          | inl passes ↦ absurd (out passes)
          | inr left ↦ left.2
        ])
