-- ===== src/Web/Login/Ended.antt =====
-- A token that the session does not have: only a login can hand it out again.
use jzf407_rust.Prelude.{
  ℕ, ◌-◌, ◌≡◌, ◌≢◌, sym, ap, ◌∙◌, subst, Bool, ◌&&◌, Option, none, some, Bytes, bytes_eq,
  Bool-cases, inl, inr, ◌==◌, leb, ltb,
}
use jzf407_rust.Text.{codes}
use jzf407_rust.Web.{value, SessionState, Clock, Reply, logged_in}
use jzf407_rust.Web.Request.{ParsedRequest, extract_cookie}
use jzf407_rust.Web.Session.{
  cookie_name, token, parsed_cookie, check_token, check_cookie, validate_session,
}
use jzf407_rust.Web.Session.Accepts.{Run-cases, value_inj, token-store_token}
use jzf407_rust.Web.Login.{
  login_is_locked, login_credentials_match, complete_login, reject_login, handle_login,
  show_login_form, handle_unauthenticated,
}
use jzf407_rust.Web.Login.Credentials.{mint_session_token-lt}

module _ (old : ℕ) (some_token : old ≢ 0) where
  abbrev pub Lacks : SessionState → Type 0
  Lacks s = token s ≢ old

  check_token-Lacks :
      (o : Option ℕ) (refresh : Bool) (now : ℕ) (s : SessionState)
      → Lacks s
      → Lacks (check_token o refresh now s).0
  unfolding check_token token
  check_token-Lacks none refresh now s l = l
  check_token-Lacks (some t) refresh now s l = elim (Bool-cases (t == token s)) [
    | inr h ↦ rw h l
    | inl h ↦ elim (Bool-cases (ltb 900 (now - s.created))) [
      | inl k ↦ rw (h, k) (λ e. some_token (sym e))
      | inr k ↦ elim (Bool-cases refresh) [ inl j ↦ rw (h, k, j) l | inr j ↦ rw (h, k, j) l ]
    ]
  ]

  check_cookie-Lacks :
      (o : Option Bytes) (refresh : Bool) (now : ℕ) (s : SessionState)
      → Lacks s
      → Lacks (check_cookie o refresh now s).0
  check_cookie-Lacks none refresh now s l = l
  check_cookie-Lacks (some c) refresh now s l = check_token-Lacks (parsed_cookie c) refresh now s l

  pub validate_session-Lacks :
      (req : Bytes) (refresh : Bool) (now : ℕ) (s : SessionState) (got : SessionState × Bool)
      → Lacks s
      → validate_session req refresh now s ≡ value got
      → Lacks got.0
  unfolding validate_session
  validate_session-Lacks req refresh now s got l e = elim (Bool-cases (token s == 0)) [
    | inl h ↦ subst (λ (p : SessionState × Bool). Lacks p.0) (value_inj (rw h at e)) l
    | inr h ↦ elim (Run-cases (extract_cookie req cookie_name)) [
      | inl k ↦ cc (rw (h, k) at e)
      | inr (o, k) ↦
          subst (λ (p : SessionState × Bool). Lacks p.0) (value_inj (rw (h, k) at e))
            (check_cookie-Lacks o refresh now s l)
    ]
  ]

  -- A login's answer names the token that the session has then.
  complete_login-Lacks :
      (seed a b : ℕ) (s : SessionState)
      → (complete_login seed a b s).1 ≢ logged_in old
      → Lacks (complete_login seed a b s).0
  unfolding complete_login token
  complete_login-Lacks seed a b s other e =
      other (ap logged_in (sym (token-store_token _ s (mint_session_token-lt _)) ∙ e))

  handle_login-Lacks :
      (r : ParsedRequest) (expected : Bytes) (seed : ℕ) (clock : Clock) (s : SessionState)
      → Lacks s
      → (handle_login r expected seed clock s).1 ≢ logged_in old
      → Lacks (handle_login r expected seed clock s).0
  unfolding handle_login reject_login token
  handle_login-Lacks r expected seed clock s l other =
      elim (Bool-cases (login_is_locked (clock 1) s.fail_count s.fail_last)) [
        | inl h ↦ rw h l
        | inr h ↦ elim (Bool-cases (login_credentials_match r expected)) [
          | inl k ↦ rw (h, k) (complete_login-Lacks seed (clock 2) (clock 3) _ (rw (h, k) at other))
          | inr k ↦ elim (Bool-cases (leb 5 s.fail_count)) [
            | inl j ↦ rw (h, k, j) l
            | inr j ↦ rw (h, k, j) l
          ]
        ]
      ]

  pub unauthenticated-Lacks :
      (r : ParsedRequest) (expected : Bytes) (seed : ℕ) (clock : Clock) (s : SessionState)
      (sent : SessionState × Reply)
      → Lacks s
      → handle_unauthenticated r expected seed clock s ≡ value sent
      → sent.1 ≢ logged_in old
      → Lacks sent.0
  unfolding handle_unauthenticated show_login_form
  unauthenticated-Lacks r expected seed clock s sent l e other =
      elim (Bool-cases (bytes_eq r.method (codes "POST") && bytes_eq r.path (codes "/login"))) [
        | inl h ↦
            let same = value_inj (rw h at e) in
            subst (λ (p : SessionState × Reply). Lacks p.0) same
              (handle_login-Lacks r expected seed clock s l
                (λ k. other (sym (ap (λ (p : SessionState × Reply). p.1) same) ∙ k)))
        | inr h ↦ elim (Bool-cases (bytes_eq r.path (codes "/events"))) [
          | inl k ↦ subst (λ (p : SessionState × Reply). Lacks p.0) (value_inj (rw (h, k) at e)) l
          | inr k ↦ elim (Run-cases (extract_cookie r.raw cookie_name)) [
            | inl j ↦ cc (rw (h, k, j) at e)
            | inr (c, j) ↦
                subst (λ (p : SessionState × Reply). Lacks p.0) (value_inj (rw (h, k, j) at e)) l
          ]
        ]
      ]
