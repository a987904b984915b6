-- ===== src/Web/Serve.antt =====
-- src/web.rs: the routes, and one connection.
pub mod NextBoot
pub mod Cases
pub mod Gate
pub mod Ended
pub mod Routes
pub mod Public
pub mod Typed
pub mod Protected
pub mod LoggedIn
mod Tests
pub mod Panics
pub mod Bounded
use jzf407_rust.Prelude.{
  ℕ, ◌*◌, ◌%◌, ◌^◌, Bool, true, false, not, ◌&&◌, ◌||◌, Option, none, some, [], ◌∷◌, Bytes,
  bytes_eq, ltb, length, if◌then◌else◌,
}
use jzf407_rust.Text.{codes}
use jzf407_rust.Text.Utf8.{from_utf8}
use jzf407_rust.Auth.{basic_token}
use jzf407_rust.Eeprom.{Bus, Cell}
use jzf407_rust.NetConfig.{NetworkConfig}
use jzf407_rust.ConfigStore.{Saved, done, save_config}
use jzf407_rust.Web.{
  Run, value, ◌>>=◌, SessionState, Clock, Reply, nothing, http_400, http_404, http_500,
  http_303_home, http_303_logout, dashboard, event_stream, state_json, rebooting_page, saved_page,
}
use jzf407_rust.Web.Request.{ParsedRequest, parse_request, body}
use jzf407_rust.Web.Form.{parse_form}
use jzf407_rust.Web.Login.{authenticate_request}

unfoldable pub log_out : SessionState → SessionState
log_out s = record s { token_hi = 0; token_lo = 0; created = 0 }

-- What is fixed when the pool starts: `cfg`, `auth_required`, `expected_token` and `token_seed`.
pub record Server : Type 0 where
  pub cfg : NetworkConfig
  pub auth_required : Bool
  pub expected_token : Bytes
  pub token_seed : ℕ

abbrev is_empty : Bytes → Bool
is_empty [] = true
is_empty (b ∷ rest) = false

-- The start of `serve_pool`.
unfoldable pub start_server : NetworkConfig → ℕ → Server
start_server cfg now = record {
  cfg = cfg;
  auth_required = not (is_empty cfg.web_user) || not (is_empty cfg.web_pass);
  expected_token = basic_token cfg.web_user cfg.web_pass;
  token_seed = now * 0x9E3779B97F4A7C15 % 2 ^ 64;
}

-- What a served request leaves: the session, the EEPROM, the answer, and whether the board restarts.
pub record Served (bus : Bus) : Type 0 where
  pub session : SessionState
  pub eeprom : Cell bus
  pub reply : Reply
  pub restarts : Bool

module _ (bus : Bus) where
  abbrev pub answer : SessionState → Cell bus → Reply → Served bus
  answer s cell reply = record { session = s; eeprom = cell; reply = reply; restarts = false }

  abbrev after_save : SessionState → Cell bus × Saved → Served bus
  after_save s (cell, done) = record {
    session = s;
    eeprom = cell;
    reply = saved_page;
    restarts = true;
  }
  after_save s (cell, problem) = answer s cell http_500

  abbrev save_parsed : SessionState → Cell bus → Option NetworkConfig → Served bus
  save_parsed s cell none = answer s cell http_400
  save_parsed s cell (some new_cfg) = after_save s (save_config bus cell new_cfg)

  abbrev save_body : NetworkConfig → SessionState → Cell bus → Option Bytes → Served bus
  save_body cfg s cell none = answer s cell http_400
  save_body cfg s cell (some b) = save_parsed s cell (parse_form b cfg)

  unfoldable pub save_and_reboot :
      ParsedRequest → NetworkConfig → SessionState → Cell bus → Served bus
  save_and_reboot r cfg s cell = save_body cfg s cell (body r)

  unfoldable pub route_authenticated :
      ParsedRequest → NetworkConfig → SessionState → Cell bus → Served bus
  route_authenticated r cfg s cell =
      let get = bytes_eq r.method (codes "GET") in
      let post = bytes_eq r.method (codes "POST") in
      if get && bytes_eq r.path (codes "/")
      then answer s cell dashboard
      else (if get && bytes_eq r.path (codes "/events")
          then answer s cell event_stream
          else (if get && bytes_eq r.path (codes "/login")
              then answer s cell http_303_home
              else (if get && bytes_eq r.path (codes "/state")
                  then answer s cell state_json
                  else (if post && bytes_eq r.path (codes "/logout")
                      then answer (log_out s) cell http_303_logout
                      else (if post && bytes_eq r.path (codes "/reboot")
                          then record {
                            session = s;
                            eeprom = cell;
                            reply = rebooting_page;
                            restarts = true;
                          }
                          else (if post && bytes_eq r.path (codes "/save")
                              then save_and_reboot r cfg s cell
                              else answer s cell http_404))))))

  unfoldable pub finish_request :
      ParsedRequest → NetworkConfig → Cell bus → SessionState × Option Reply → Served bus
  finish_request r cfg cell (s, some reply) = answer s cell reply
  finish_request r cfg cell (s, none) = route_authenticated r cfg s cell

  unfoldable pub serve_request : Server → Bytes → Clock → SessionState → Cell bus → Run (Served bus)
  serve_request server req clock s cell =
      authenticate_request (parse_request req) server.auth_required server.expected_token
        server.token_seed clock s
      >>= λ passed. value (finish_request (parse_request req) server.cfg cell passed)

  abbrev serve_text : Server → Clock → SessionState → Cell bus → Option Bytes → Run (Served bus)
  serve_text server clock s cell none = value (answer s cell http_400)
  serve_text server clock s cell (some req) = serve_request server req clock s cell

  -- `serve_connection`, for what the first read of the socket gave.
  unfoldable pub serve_connection :
      Server → Option Bytes → Clock → SessionState → Cell bus → Run (Served bus)
  serve_connection server none clock s cell = value (answer s cell nothing)
  serve_connection server (some []) clock s cell = value (answer s cell nothing)
  serve_connection server (some (b ∷ rest)) clock s cell =
      serve_text server clock s cell (from_utf8 (b ∷ rest))
