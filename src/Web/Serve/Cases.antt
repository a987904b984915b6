-- ===== src/Web/Serve/Cases.antt =====
-- The ways that one connection can take through the server.
use jzf407_rust.Prelude.{
  ◌≡◌, refl, sym, Bool, true, false, Option, none, some, [], ◌∷◌, Bytes, Bool-cases, inl, inr, ◌⊎◌,
  arith,
}
use jzf407_rust.Text.Utf8.{valid_utf8}
use jzf407_rust.Eeprom.{Bus, Cell}
use jzf407_rust.NetConfig.{NetworkConfig}
use jzf407_rust.ConfigStore.{Saved, done, overrun, failed, save_config}
use jzf407_rust.Web.Form.{parse_form}
use jzf407_rust.Web.{value, ◌>>=◌, SessionState, Clock, Reply, nothing, http_400}
use jzf407_rust.Web.Request.{ParsedRequest, body, parse_request, refreshes_session}
use jzf407_rust.Web.Session.{validate_session}
use jzf407_rust.Web.Session.Accepts.{Run-cases, value_inj}
use jzf407_rust.Web.Login.{handle_unauthenticated, let_pass, authenticate_request}
use jzf407_rust.Web.Serve.{
  Server, Served, answer, log_out, after_save, save_parsed, save_body, save_and_reboot,
  route_authenticated, finish_request, serve_request, serve_connection,
}

module _ (bus : Bus) (server : Server) where
  after_save-session :
      (s : SessionState) (got : Cell bus × Saved) → (after_save bus s got).session ≡ s
  after_save-session s (c, done) = refl
  after_save-session s (c, overrun) = refl
  after_save-session s (c, failed) = refl

  save_parsed-session :
      (s : SessionState) (cell : Cell bus) (o : Option NetworkConfig)
      → (save_parsed bus s cell o).session ≡ s
  save_parsed-session s cell none = refl
  save_parsed-session s cell (some new_cfg) = after_save-session s (save_config bus cell new_cfg)

  save_body-session :
      (s : SessionState) (cell : Cell bus) (o : Option Bytes)
      → (save_body bus server.cfg s cell o).session ≡ s
  save_body-session s cell none = refl
  save_body-session s cell (some b) = save_parsed-session s cell (parse_form b server.cfg)

  -- The session is left as it was, or ended.
  abbrev pub KeptOrOut : SessionState → Served bus → Type 0
  KeptOrOut s out = (out.session ≡ s) ⊎ (out.session ≡ log_out s)

  pub routed-session :
      (r : ParsedRequest) (s : SessionState) (cell : Cell bus)
      → KeptOrOut s (route_authenticated bus r server.cfg s cell)
  unfolding route_authenticated save_and_reboot
  routed-session r s cell = ground (arith, save_body-session s cell (body r))

module _ (bus : Bus) (server : Server) (clock : Clock) (s : SessionState) (cell : Cell bus) where
  -- How the server came to its answer.
  pub data Came (out : Served bus) : Option Bytes → Type 0 where
    unread : (got : Option Bytes) → out ≡ answer bus s cell nothing → Came out got
    unreadable : (got : Option Bytes) → out ≡ answer bus s cell http_400 → Came out got
    unguarded :
        (req : Bytes)
        → server.auth_required ≡ false
        → out ≡ route_authenticated bus (parse_request req) server.cfg s cell
        → Came out (some req)
    passed :
        (req : Bytes) (t : SessionState)
        → validate_session req (refreshes_session (parse_request req)) (clock 0) s ≡ value (t, true)
        → out ≡ route_authenticated bus (parse_request req) server.cfg t cell
        → Came out (some req)
    refused :
        (req : Bytes) (t : SessionState) (sent : SessionState × Reply)
        → validate_session req (refreshes_session (parse_request req)) (clock 0) s
          ≡ value (t, false)
        → handle_unauthenticated (parse_request req) server.expected_token server.token_seed clock t
          ≡ value sent
        → out ≡ answer bus sent.0 cell sent.1
        → Came out (some req)

  judged :
      (req : Bytes) (got : SessionState × Bool) (out : Served bus)
      → validate_session req (refreshes_session (parse_request req)) (clock 0) s ≡ value got
      → (let_pass (parse_request req) server.expected_token server.token_seed clock got
          >>= λ passed. value (finish_request bus (parse_request req) server.cfg cell passed))
        ≡ value out
      → Came out (some req)
  unfolding let_pass finish_request
  judged req (t, true) out v e = passed req t v (sym (value_inj e))
  judged req (t, false) out v e =
      elim (Run-cases (
        handle_unauthenticated (parse_request req) server.expected_token server.token_seed clock
          t)) [
            | inl h ↦ cc (rw h at e)
            | inr (sent, h) ↦ refused req t sent v h (sym (value_inj (rw h at e)))
          ]

  request_came :
      (auth : Bool) (req : Bytes) (out : Served bus)
      → server.auth_required ≡ auth
      → serve_request bus server req clock s cell ≡ value out
      → Came out (some req)
  unfolding serve_request parse_request authenticate_request finish_request
  request_came true req out on e =
      elim (Run-cases (validate_session req (refreshes_session (parse_request req)) (clock 0) s)) [
        | inl h ↦ cc (rw (on, authenticate_request, h) at e)
        | inr (got, h) ↦ judged req got out h (rw (on, authenticate_request, h) at e)
      ]
  request_came false req out off e =
      unguarded req off (sym (value_inj (rw (off, authenticate_request) at e)))

  -- Every connection that is served takes one of these ways.
  pub came :
      (got : Option Bytes) (out : Served bus)
      → serve_connection bus server got clock s cell ≡ value out
      → Came out got
  unfolding serve_connection
  came none out e = unread none (sym (value_inj e))
  came (some []) out e = unread (some []) (sym (value_inj e))
  came (some (b ∷ rest)) out e = elim (Bool-cases (valid_utf8 (b ∷ rest))) [
    | inl h ↦ request_came server.auth_required (b ∷ rest) out refl (rw h at e)
    | inr h ↦ unreadable (some (b ∷ rest)) (sym (value_inj (rw h at e)))
  ]
