-- ===== src/Web/Serve/Routes.antt =====
-- What the routes may change.
use jzf407_rust.Prelude.{◌≡◌, false, bytes_eq, arith}
use jzf407_rust.Text.{codes}
use jzf407_rust.Eeprom.{Bus, Cell}
use jzf407_rust.NetConfig.{NetworkConfig}
use jzf407_rust.Web.{SessionState}
use jzf407_rust.Web.Request.{ParsedRequest}
use jzf407_rust.Web.Serve.{route_authenticated}

-- A request that passed and is not a POST changes nothing: not the session, not the EEPROM, and the
-- board goes on. A link or a reload can neither log out, nor save, nor restart.
pub only_posts_act :
    (bus : Bus) (r : ParsedRequest) (cfg : NetworkConfig) (s : SessionState) (cell : Cell bus)
    → bytes_eq r.method (codes "POST") ≡ false
    → ((route_authenticated bus r cfg s cell).session ≡ s)
      × ((route_authenticated bus r cfg s cell).eeprom ≡ cell)
      × ((route_authenticated bus r cfg s cell).restarts ≡ false)
unfolding route_authenticated
only_posts_act bus r cfg s cell h = ground (arith, h)
