-- ===== src/Web/Login/Bounded.antt =====
-- The session and the logins keep the five atomics in their ranges.
use jzf407_rust.Prelude.{
  ℕ, ◌-◌, ◌^◌, ◌≤◌, ◌<◌, ◌≡◌, subst, Bool, ◌&&◌, Option, none, some, Bytes, bytes_eq, arith,
  Bool-cases, inl, inr, ◌==◌, leb, ltb,
}
use jzf407_rust.Text.{codes}
use jzf407_rust.Web.{value, SessionState, Clock, Reply, login_max_fails}
use jzf407_rust.Web.Request.{ParsedRequest, extract_cookie}
use jzf407_rust.Web.Session.{
  cookie_name, token, parsed_cookie, check_token, check_cookie, validate_session,
}
use jzf407_rust.Web.Session.Accepts.{Run-cases, value_inj}
use jzf407_rust.Web.Login.{
  login_is_locked, login_credentials_match, complete_login, reject_login, handle_login,
  show_login_form, handle_unauthenticated,
}

pub record IsBounded (s : SessionState) : Type 0 where
  pub token_hi_lt : s.token_hi < 2 ^ 32
  pub token_lo_lt : s.token_lo < 2 ^ 32
  pub created_lt : s.created < 2 ^ 32
  pub fail_last_lt : s.fail_last < 2 ^ 32
  pub fail_count_le : s.fail_count ≤ login_max_fails

check_token-IsBounded :
    (o : Option ℕ) (refresh : Bool) (now : ℕ) (s : SessionState)
    → IsBounded s
    → IsBounded (check_token o refresh now s).0
unfolding check_token
check_token-IsBounded none refresh now s i = i
check_token-IsBounded (some t) refresh now s i = elim (Bool-cases (t == token s)) [
  | inr h ↦ rw h i
  | inl h ↦ elim (Bool-cases (ltb 900 (now - s.created))) [
    | inl k ↦
        rw (h, k)
          (record {
            token_hi_lt = omega arith;
            token_lo_lt = omega arith;
            created_lt = i.created_lt;
            fail_last_lt = i.fail_last_lt;
            fail_count_le = i.fail_count_le;
          })
    | inr k ↦ elim (Bool-cases refresh) [
      | inl l ↦
          rw (h, k, l)
            (record {
              token_hi_lt = i.token_hi_lt;
              token_lo_lt = i.token_lo_lt;
              created_lt = omega arith;
              fail_last_lt = i.fail_last_lt;
              fail_count_le = i.fail_count_le;
            })
      | inr l ↦ rw (h, k, l) i
    ]
  ]
]

check_cookie-IsBounded :
    (o : Option Bytes) (refresh : Bool) (now : ℕ) (s : SessionState)
    → IsBounded s
    → IsBounded (check_cookie o refresh now s).0
check_cookie-IsBounded none refresh now s i = i
check_cookie-IsBounded (some c) refresh now s i =
    check_token-IsBounded (parsed_cookie c) refresh now s i

pub validate_session-IsBounded :
    (req : Bytes) (refresh : Bool) (now : ℕ) (s : SessionState) (got : SessionState × Bool)
    → IsBounded s
    → validate_session req refresh now s ≡ value got
    → IsBounded got.0
unfolding validate_session
validate_session-IsBounded req refresh now s got i e = elim (Bool-cases (token s == 0)) [
  | inl h ↦ subst (λ (p : SessionState × Bool). IsBounded p.0) (value_inj (rw h at e)) i
  | inr h ↦ elim (Run-cases (extract_cookie req cookie_name)) [
    | inl k ↦ cc (rw (h, k) at e)
    | inr (o, k) ↦
        subst (λ (p : SessionState × Bool). IsBounded p.0) (value_inj (rw (h, k) at e))
          (check_cookie-IsBounded o refresh now s i)
  ]
]

complete_login-IsBounded :
    (seed a b : ℕ) (s : SessionState) → IsBounded s → IsBounded (complete_login seed a b s).0
unfolding complete_login
complete_login-IsBounded seed a b s i = record {
  token_hi_lt = omega arith;
  token_lo_lt = omega arith;
  created_lt = omega arith;
  fail_last_lt = i.fail_last_lt;
  fail_count_le = omega arith;
}

reject_login-IsBounded :
    (now : ℕ) (s : SessionState) → IsBounded s → s.fail_count < 5 → IsBounded (reject_login now s).0
unfolding reject_login
reject_login-IsBounded now s i h = record {
  token_hi_lt = i.token_hi_lt;
  token_lo_lt = i.token_lo_lt;
  created_lt = i.created_lt;
  fail_last_lt = omega arith;
  fail_count_le = omega (arith, h);
}

cleared-IsBounded : (s : SessionState) → IsBounded s → IsBounded (record s { fail_count = 0 })
cleared-IsBounded s i = record {
  token_hi_lt = i.token_hi_lt;
  token_lo_lt = i.token_lo_lt;
  created_lt = i.created_lt;
  fail_last_lt = i.fail_last_lt;
  fail_count_le = omega arith;
}

handle_login-IsBounded :
    (r : ParsedRequest) (expected : Bytes) (seed : ℕ) (clock : Clock) (s : SessionState)
    → IsBounded s
    → IsBounded (handle_login r expected seed clock s).0
unfolding handle_login
handle_login-IsBounded r expected seed clock s i =
    elim (Bool-cases (login_is_locked (clock 1) s.fail_count s.fail_last)) [
      | inl h ↦ rw h i
      | inr h ↦ elim (Bool-cases (login_credentials_match r expected)) [
        | inl k ↦ elim (Bool-cases (leb 5 s.fail_count)) [
          | inl l ↦
              rw (h, k, l)
                (complete_login-IsBounded seed (clock 2) (clock 3) _ (cleared-IsBounded s i))
          | inr l ↦ rw (h, k, l) (complete_login-IsBounded seed (clock 2) (clock 3) s i)
        ]
        | inr k ↦ elim (Bool-cases (leb 5 s.fail_count)) [
          | inl l ↦
              rw (h, k, l)
                (reject_login-IsBounded (clock 2) _ (cleared-IsBounded s i) (omega arith))
          | inr l ↦ rw (h, k, l) (reject_login-IsBounded (clock 2) s i (ground arith))
        ]
      ]
    ]

pub unauthenticated-IsBounded :
    (r : ParsedRequest) (expected : Bytes) (seed : ℕ) (clock : Clock) (s : SessionState)
    (sent : SessionState × Reply)
    → IsBounded s
    → handle_unauthenticated r expected seed clock s ≡ value sent
    → IsBounded sent.0
unfolding handle_unauthenticated show_login_form
unauthenticated-IsBounded r expected seed clock s sent i e =
    elim (Bool-cases (bytes_eq r.method (codes "POST") && bytes_eq r.path (codes "/login"))) [
      | inl h ↦
          subst (λ (p : SessionState × Reply). IsBounded p.0) (value_inj (rw h at e))
            (handle_login-IsBounded r expected seed clock s i)
      | inr h ↦ elim (Bool-cases (bytes_eq r.path (codes "/events"))) [
        | inl k ↦ subst (λ (p : SessionState × Reply). IsBounded p.0) (value_inj (rw (h, k) at e)) i
        | inr k ↦ elim (Run-cases (extract_cookie r.raw cookie_name)) [
          | inl l ↦ cc (rw (h, k, l) at e)
          | inr (c, l) ↦
              subst (λ (p : SessionState × Reply). IsBounded p.0) (value_inj (rw (h, k, l) at e)) i
        ]
      ]
    ]
