-- ===== src/Web/Browser/Cookies.antt =====
-- An independent description of a browser's cookie: the first one that an answer sets.
use jzf407_rust.Prelude.{ℕ, ◌^◌, ◌<◌, ◌≡◌, refl, Option, none, some, [], ◌∷◌, ◌++◌, Bytes, arith}
use jzf407_rust.Text.{codes}
use jzf407_rust.Text.Utf8.{concat}
use jzf407_rust.Text.Split.{Avoids, after_first, strip_prefix}
use jzf407_rust.Text.Decimal.{Digits-Avoids, to_decimal, to_decimal-Digits}
use jzf407_rust.Web.Browser.{until}
use jzf407_rust.Web.Page.Answer.{redirect, redirect_complete}
use jzf407_rust.Web.Request.Cookie.{named}

abbrev cookie_part : Option Bytes → Bytes
cookie_part none = []
cookie_part (some s) = until b';' s

-- What an answer sets: the name, `=` and the value, without the attributes.
unfoldable pub kept_cookie : Bytes → Bytes
kept_cookie answer = cookie_part (after_first (codes "Set-Cookie: ") answer)

until-stop : (stop : ℕ) (s rest : Bytes) → Avoids stop s → until stop (s ++ (stop ∷ rest)) ≡ s
unfolding until
until-stop stop [] rest h = ground arith
until-stop stop (b ∷ s) rest h = ground (arith, until-stop stop s rest h.1)

-- The browser keeps the token that the login minted.
pub kept_cookie-redirect :
    (t : ℕ) → t < 2 ^ 64 → kept_cookie (redirect t) ≡ named (codes "jzf_session") (to_decimal t)
unfolding kept_cookie after_first strip_prefix concat until
kept_cookie-redirect t h =
    rw
      (
        redirect_complete t h,
        until-stop b';' (to_decimal t)
            (codes
              " Path=/; Max-Age=1800; HttpOnly; SameSite=Strict\r\nLocation: /\r\nConnection: close\r\n\r\n")
            (Digits-Avoids b';' (to_decimal t) (omega arith) (to_decimal-Digits t)),
      )
      refl
