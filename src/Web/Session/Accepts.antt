-- ===== src/Web/Session/Accepts.antt =====
-- When a request passes as the logged-in client, and when a session ends.
use jzf407_rust.Prelude.{
  ℕ, ◌+◌, ◌-◌, ◌*◌, ◌/◌, ◌%◌, ◌^◌, ◌≤◌, ◌<◌, ◌≡◌, ◌≢◌, ◌↔◌, ◌⊎◌, inl, inr, refl, sym, ap, ◌∙◌,
  subst, Bool, true, false, Option, none, some, Bytes, arith, ◌==◌, ==_iff, ltb, if◌then◌else◌,
  Bool-cases, bit_or_halves,
}
use jzf407_rust.Web.{Run, panic, value, SessionState, session_ttl_secs}
use jzf407_rust.Web.Request.{extract_cookie}
use jzf407_rust.Web.Session.{
  cookie_name, token, store_token, parsed_cookie, check_token, check_cookie, validate_session,
}

-- Both halves of a 64-bit token are kept, and put together again they are the token.
pub token-store_token : (t : ℕ) (s : SessionState) → t < 2 ^ 64 → token (store_token t s) ≡ t
unfolding token
token-store_token t s h =
    let high : t / 2 ^ 32 % 2 ^ 32 * 2 ^ 32 % 2 ^ 64 ≡ t / 2 ^ 32 * 2 ^ 32 = omega arith in
    rw high (bit_or_halves 32 (t / 2 ^ 32) (t % 2 ^ 32) (omega arith) ∙ omega arith)

-- What a passing request leaves.
abbrev pub refreshed : Bool → ℕ → SessionState → SessionState
refreshed refresh now s = if refresh then record s { created = now % 2 ^ 32 } else s

-- The request has a session cookie that spells the token, and the session is not too old.
pub record Carries (req : Bytes) (now : ℕ) (s : SessionState) : Type 0 where
  pub some_token : token s ≢ 0
  pub cookie : Bytes
  pub sent : extract_cookie req cookie_name ≡ value (some cookie)
  pub spells : parsed_cookie cookie ≡ some (token s)
  pub fresh : now - s.created ≤ session_ttl_secs

pub value_inj {ℓ} : {A : Type ℓ} {x y : A} → value x ≡ value y → x ≡ y
value_inj {x = x} e = ap (λ r. elim r [ panic ↦ x | value z ↦ z ]) e

pub Run-cases {ℓ} : {A : Type ℓ} (r : Run A) → (r ≡ panic) ⊎ ((x : A) × (r ≡ value x))
Run-cases panic = inl refl
Run-cases (value x) = inr (x, refl)

check_token-passes :
    (o : Option ℕ) (refresh : Bool) (now : ℕ) (s s' : SessionState)
    → check_token o refresh now s ≡ (s', true)
    → (o ≡ some (token s)) × (now - s.created ≤ 900) × (s' ≡ refreshed refresh now s)
unfolding check_token
check_token-passes none refresh now s s' e = cc
check_token-passes (some t) refresh now s s' e = elim (Bool-cases (t == token s)) [
  | inr h ↦ cc (rw h at e)
  | inl h ↦ elim (Bool-cases (ltb 900 (now - s.created))) [
    | inl k ↦ cc (rw (h, k) at e)
    | inr k ↦ (
      ap some ((==_iff _ _).0 h),
      ground arith,
      sym (ap (λ (p : SessionState × Bool). p.0) (rw (h, k) at e)),
    )
  ]
]

check_cookie-passes :
    (o : Option Bytes) (refresh : Bool) (now : ℕ) (s s' : SessionState)
    → check_cookie o refresh now s ≡ (s', true)
    → (c : Bytes) × (o ≡ some c) × (check_token (parsed_cookie c) refresh now s ≡ (s', true))
check_cookie-passes none refresh now s s' e = cc
check_cookie-passes (some c) refresh now s s' e = (c, refl, e)

passes :
    (req : Bytes) (refresh : Bool) (now : ℕ) (s s' : SessionState)
    → validate_session req refresh now s ≡ value (s', true)
    → Carries req now s × (s' ≡ refreshed refresh now s)
unfolding validate_session
passes req refresh now s s' e = elim (Bool-cases (token s == 0)) [
  | inl h ↦ cc (rw h at e)
  | inr h ↦ elim (Run-cases (extract_cookie req cookie_name)) [
    | inl k ↦ cc (rw (h, k) at e)
    | inr (o, k) ↦
        let (c, has, checked) =
          check_cookie-passes o refresh now s s' (value_inj (rw (h, k) at e)) in
        let (same, age, left) = check_token-passes (parsed_cookie c) refresh now s s' checked in
        (
          record {
            some_token = ground arith;
            cookie = c;
            sent = k ∙ ap value has;
            spells = same;
            fresh = age;
          },
          left,
        )
  ]
]

cookie_lets_pass :
    (req : Bytes) (refresh : Bool) (now : ℕ) (s : SessionState)
    → Carries req now s
    → validate_session req refresh now s ≡ value (refreshed refresh now s, true)
unfolding validate_session check_token
cookie_lets_pass req refresh now s c =
    let live : (token s == 0) ≡ false = ground (arith, c.some_token) in
    let known : (token s == token s) ≡ true = (==_iff _ _).1 refl in
    let young : ltb 900 (now - s.created) ≡ false = ground (arith, c.fresh) in
    rw (live, c.sent, c.spells, known, young)

-- A request passes exactly when there is a session, the request carries a cookie that spells its
-- token, and the session was refreshed at most 900 s ago; then only the time of the session may
-- change, and only if the request refreshes it.
pub validate_session_iff :
    (req : Bytes) (refresh : Bool) (now : ℕ) (s s' : SessionState)
    → (validate_session req refresh now s ≡ value (s', true))
      ↔ (Carries req now s × (s' ≡ refreshed refresh now s))
validate_session_iff req refresh now s s' = (
  passes req refresh now s s',
  λ h.
      subst (λ t. validate_session req refresh now s ≡ value (t, true)) (sym h.1)
        (cookie_lets_pass req refresh now s h.0),
)

-- A session may also end; nothing else changes it without a refresh.
check_token-polled :
    (o : Option ℕ) (now : ℕ) (s : SessionState)
    → (check_token o false now s ≡ (s, (check_token o false now s).1))
      ⊎ (check_token o false now s ≡ (record s { token_hi = 0; token_lo = 0 }, false))
unfolding check_token
check_token-polled none now s = inl refl
check_token-polled (some t) now s = elim (Bool-cases (t == token s)) [
  | inr h ↦ inl (rw h refl)
  | inl h ↦ elim (Bool-cases (ltb 900 (now - s.created))) [
    | inl k ↦ inr (rw (h, k) refl)
    | inr k ↦ inl (rw (h, k) refl)
  ]
]

-- `Polled s s'`: requests that do not refresh the session lead from `s` to `s'`, whether they pass
-- or not.
pub data Polled : SessionState → SessionState → Type 0 where
  none_yet : {s : SessionState} → Polled s s
  poll :
      {s s' s'' : SessionState} (req : Bytes) (now : ℕ) (passed : Bool)
      → Polled s s'
      → validate_session req false now s' ≡ value (s'', passed)
      → Polled s s''

-- What polling can make of a session: itself, or none.
abbrev KeptOrEnded : SessionState → SessionState → Type 0
KeptOrEnded s s' = (s' ≡ s) ⊎ (token s' ≡ 0)

poll_cookie :
    (o : Option Bytes) (now : ℕ) (s s'' : SessionState) (b : Bool)
    → check_cookie o false now s ≡ (s'', b)
    → KeptOrEnded s s''
unfolding token
poll_cookie none now s s'' b e = inl (ap (λ (p : SessionState × Bool). p.0) (sym e))
poll_cookie (some c) now s s'' b e = elim (check_token-polled (parsed_cookie c) now s) [
  | inl h ↦ inl (ap (λ (p : SessionState × Bool). p.0) (sym e ∙ h))
  | inr h ↦ inr (ap (λ (p : SessionState × Bool). token p.0) (sym e ∙ h))
]

polled_once :
    (req : Bytes) (now : ℕ) (s s'' : SessionState) (b : Bool)
    → validate_session req false now s ≡ value (s'', b)
    → KeptOrEnded s s''
unfolding validate_session
polled_once req now s s'' b e = elim (Bool-cases (token s == 0)) [
  | inl h ↦ inl (ap (λ (p : SessionState × Bool). p.0) (sym (value_inj (rw h at e))))
  | inr h ↦ elim (Run-cases (extract_cookie req cookie_name)) [
    | inl k ↦ cc (rw (h, k) at e)
    | inr (o, k) ↦ poll_cookie o now s s'' b (value_inj (rw (h, k) at e))
  ]
]

ended_stays :
    (req : Bytes) (now : ℕ) (s s'' : SessionState) (b : Bool)
    → token s ≡ 0
    → validate_session req false now s ≡ value (s'', b)
    → token s'' ≡ 0
unfolding validate_session
ended_stays req now s s'' b none_left e =
    let off : (token s == 0) ≡ true = (==_iff _ _).1 none_left in
    ap (λ (p : SessionState × Bool). token p.0) (sym (value_inj (rw off at e))) ∙ none_left

polling_keeps : {s s' : SessionState} → Polled s s' → KeptOrEnded s s'
polling_keeps none_yet = inl refl
polling_keeps (poll {s} {s'} {s''} req now passed before e) = elim (polling_keeps before) [
  | inl h ↦ elim (polled_once req now s' s'' passed e) [ inl k ↦ inl (k ∙ h) | inr k ↦ inr k ]
  | inr h ↦ inr (ended_stays req now s' s'' passed h e)
]

-- A session that is only polled ends: more than 900 s after its last refresh no request passes,
-- however many requests that do not refresh it were served in between.
pub idle_session_ends :
    (req : Bytes) (refresh : Bool) (now : ℕ) (s s' s'' : SessionState)
    → Polled s s'
    → s.created + session_ttl_secs < now
    → validate_session req refresh now s' ≢ value (s'', true)
idle_session_ends req refresh now s s' s'' polls late e =
    let c = ((validate_session_iff req refresh now s' s'').0 e).0 in
    elim (polling_keeps polls) [
      | inl h ↦ absurd (omega (arith, c.fresh, ap (λ (t : SessionState). t.created) h))
      | inr h ↦ c.some_token h
    ]
