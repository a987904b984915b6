-- ===== src/Web/Login/Lockout.antt =====
-- Wrong logins are counted, and five of them close the login for a minute.
use jzf407_rust.Prelude.{
  ℕ, suc, ◌+◌, ◌-◌, ◌%◌, ◌^◌, ◌≤◌, ◌<◌, ◌≡◌, ◌⊎◌, inl, inr, refl, ap, ◌∙◌, true, false, some, Bytes,
  leb, ltb, arith,
}
use jzf407_rust.Web.{
  SessionState, Clock, login_401, login_locked, Reply, login_form, login_lockout_secs,
}
use jzf407_rust.Web.Request.{ParsedRequest}
use jzf407_rust.Web.Login.{
  login_is_locked, login_credentials_match, reject_login, forgive, handle_login,
}

module _ (expected : Bytes) (seed : ℕ) where
  -- `Failed n t s s'`: `n` logins with wrong credentials, each let through to the check, lead from
  -- `s` to `s'`; `t` is the time of the last of them.
  pub data Failed : ℕ → ℕ → SessionState → SessionState → Type 0 where
    no_login : {t : ℕ} {s : SessionState} → Failed 0 t s s
    wrong_login :
        {n t : ℕ} {s s' : SessionState} (r : ParsedRequest) (clock : Clock)
        → Failed n t s s'
        → login_is_locked (clock 1) s'.fail_count s'.fail_last ≡ false
        → login_credentials_match r expected ≡ false
        → Failed (suc n) (clock 2) s (handle_login r expected seed clock s').0

  rejected :
      (r : ParsedRequest) (clock : Clock) (s : SessionState)
      → login_is_locked (clock 1) s.fail_count s.fail_last ≡ false
      → login_credentials_match r expected ≡ false
      → handle_login r expected seed clock s ≡ reject_login (clock 2) (forgive s)
  unfolding handle_login
  rejected r clock s free wrong = rw (free, wrong)

  count : (s : SessionState) → s.fail_count < 5 → forgive s ≡ s
  count s h = (rw (ltb→leb_false s.fail_count h))
    where
      ltb→leb_false : (n : ℕ) → n < 5 → leb 5 n ≡ false
      ltb→leb_false n h = ground arith

  failures_counted :
      {n t : ℕ} {s s' : SessionState}
      → Failed n t s s'
      → s.fail_count ≡ 0
      → n ≤ 5
      → (s'.fail_count ≡ n) × ((n ≡ 0) ⊎ (s'.fail_last ≡ t % 2 ^ 32))
  unfolding reject_login
  failures_counted no_login start h = (start, inl refl)
  failures_counted (wrong_login {n} {t} {s} {s'} r clock before free wrong) start h =
      let was = (failures_counted before start (omega arith)).0 in
      let now =
        rejected r clock s' free wrong ∙ ap (reject_login (clock 2)) (count s' (omega arith)) in
      (
        ap (λ (p : SessionState × Reply). p.0.fail_count) now ∙ omega arith,
        inr (ap (λ (p : SessionState × Reply). p.0.fail_last) now),
      )

  -- After five wrong logins from a count of 0 every login within 60 s of the last of them, with the
  -- right credentials or not, is answered with the lockout message and changes nothing. (The time of
  -- the last one is below 2^32 seconds of uptime.)
  pub five_failures_lock :
      {t : ℕ} {s s' : SessionState} (r : ParsedRequest) (clock : Clock)
      → Failed 5 t s s'
      → s.fail_count ≡ 0
      → t < 2 ^ 32
      → clock 1 < t + login_lockout_secs
      → handle_login r expected seed clock s' ≡ (s', login_form login_401 (some login_locked))
  unfolding handle_login login_is_locked
  five_failures_lock {t} {s} {s'} r clock fails start small soon =
      let (five, when) = failures_counted fails start (omega arith) in
      let last : s'.fail_last ≡ t = ground arith in
      let full : leb 5 s'.fail_count ≡ true = ground arith in
      let recent : ltb (clock 1 - s'.fail_last) 60 ≡ true = ground arith in rw (full, recent)
