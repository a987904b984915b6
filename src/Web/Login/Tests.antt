-- ===== src/Web/Login/Tests.antt =====
-- Logins at concrete requests.
use jzf407_rust.Prelude.{
  ℕ, suc, subst, ◌≡◌, ◌≢◌, refl, true, false, some, [], ◌∷◌, ◌++◌, Bytes, bytes_eq, arith, contains,
}
use jzf407_rust.Text.{codes}
use jzf407_rust.Text.Utf8.{valid_utf8}
use jzf407_rust.Text.Split.{split, key_value, after_first}
use jzf407_rust.Auth.Injective.{IsShort}
use jzf407_rust.Web.Login.Credentials.{new_token, logged}
use jzf407_rust.Web.Serve.LoggedIn.{redirect_opens_dashboard}
use jzf407_rust.Web.Browser.Cookies.{kept_cookie}
use jzf407_rust.Web.Page.Answer.{redirect}
use jzf407_rust.Web.Request.Cookie.{home_with_cookie}
use jzf407_rust.Auth.{basic_token}
use jzf407_rust.WebForm.{form_url_decode}
use jzf407_rust.NetConfig.{default}
use jzf407_rust.Web.{
  value, SessionState, initial, dashboard, Clock, logged_in, login_401, login_locked, login_form,
}
use jzf407_rust.Web.Request.{ParsedRequest, parse_request, body}
use jzf407_rust.Web.Session.{mint_session_token}
use jzf407_rust.Web.Session.Accepts.{refreshed}
use jzf407_rust.Web.Form.{parse_login_form, login_loop}
use jzf407_rust.Web.Login.{
  complete_login, handle_login, login_is_locked, reject_login, login_credentials_match,
}
use jzf407_rust.Web.Login.Lockout.{Failed, no_login, wrong_login, five_failures_lock}
use jzf407_rust.Web.Serve.{Server, start_server, answer, serve_connection}
use jzf407_rust.Eeprom.Simulated.{simulated}
use jzf407_rust.Web.Tests.{cell}

abbrev crlf : Bytes
crlf = 13 ∷ 10 ∷ []

-- A wrong login: `user=a&pass=b` against the credentials `admin` and `pass`.
abbrev wrong : ParsedRequest
wrong = parse_request (codes "POST /login HTTP/1.1" ++ crlf ++ crlf ++ codes "user=a&pass=b")

abbrev server : Server
server = start_server (record default { web_user = codes "admin"; web_pass = codes "pass" }) 3

is_wrong : login_credentials_match wrong server.expected_token ≡ false
unfolding login_credentials_match body parse_request start_server after_first parse_login_form
    login_loop split bytes_eq key_value form_url_decode contains valid_utf8 basic_token
is_wrong = refl

abbrev at : ℕ → Clock
at now k = now

-- `n` failures, the last at time `t`.
abbrev counted : ℕ → ℕ → SessionState
counted n t = record initial { fail_count = n; fail_last = t }

abbrev Fails : ℕ → ℕ → Type 0
Fails n t = Failed server.expected_token 7 n t initial (counted n t)

once_more :
    (n l t : ℕ)
    → Fails n l
    → login_is_locked t n l ≡ false
    → (handle_login wrong server.expected_token 7 (at t) (counted n l)).0 ≡ counted (suc n) t
    → Fails (suc n) t
once_more n l t fails free moved =
    subst (Failed server.expected_token 7 (suc n) t initial) moved
      (wrong_login wrong (at t) fails free is_wrong)

five_fail : Fails 5 14
unfolding handle_login login_is_locked reject_login
five_fail =
    once_more 4 12 14
      (once_more 3 10 12
        (once_more 2 8 10
          (once_more 1 6 8 (once_more 0 0 6 no_login refl (rw is_wrong refl)) refl
            (rw is_wrong refl))
          refl (rw is_wrong refl))
        refl (rw is_wrong refl))
      refl (rw is_wrong refl)

five_failures_lock_example :
    handle_login wrong server.expected_token 7 (at 70) (counted 5 14)
    ≡ (counted 5 14, login_form login_401 (some login_locked))
five_failures_lock_example =
    five_failures_lock server.expected_token 7 wrong (at 70) five_fail refl (omega arith)
      (omega arith)

abbrev right : ParsedRequest
right = parse_request (codes "POST /login HTTP/1.1" ++ crlf ++ crlf ++ codes "user=admin&pass=pass")

right_submits : body right ≡ some (codes "user=admin&pass=pass")
unfolding body parse_request after_first
right_submits = refl

right_fields :
    parse_login_form (codes "user=admin&pass=pass") ≡ (some (codes "admin"), some (codes "pass"))
unfolding parse_login_form login_loop split bytes_eq key_value form_url_decode contains valid_utf8
right_fields = refl

short : IsShort (codes "admin") (codes "pass")
short = record { user_bytes = omega arith; pass_bytes = omega arith; fits = omega arith }

some_token : new_token server.token_seed 2 2 initial ≢ 0
unfolding start_server mint_session_token
some_token = omega arith

redirect_opens_dashboard_example :
    (complete_login server.token_seed 2 2 initial
      ≡ (logged server.token_seed 2 2 initial, logged_in (new_token server.token_seed 2 2 initial)))
    × (serve_connection simulated server
          (some
            (home_with_cookie (kept_cookie (redirect (new_token server.token_seed 2 2 initial)))))
          (at 900)
          (logged server.token_seed 2 2 initial)
          cell
        ≡ value (
            answer simulated
              (refreshed true 900 (logged server.token_seed 2 2 initial))
              cell
              dashboard))
unfolding start_server
redirect_opens_dashboard_example =
    redirect_opens_dashboard simulated server 2 2 initial (at 900) cell refl some_token
      (omega arith) (omega arith)
