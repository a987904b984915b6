-- ===== src/Boot/Recovery.antt =====
-- src/main.rs: the recovery of the I2C bus, before the peripheral is made. What a chip on the bus does
-- with the two lines is a parameter.
use jzf407_rust.Prelude.{
  ℕ, zero, suc, ◌≤◌, ◌<◌, ◌≡◌, ◌⊎◌, inl, inr, refl, sym, ap, ◌∙◌, subst, Bool, true, false, arith,
  Bool-cases, if◌then◌else◌,
}

-- The chip and the lines: what changes when the board drives SCL or SDA to a level (high is let go),
-- and how SDA then reads.
pub record Lines : Type 1 where
  pub State : Type 0
  pub set_scl : Bool → State → State
  pub set_sda : Bool → State → State
  pub sda_is_high : State → Bool

module _ (lines : Lines) where
  abbrev pub pulse : lines.State → lines.State
  pulse s = lines.set_scl true (lines.set_scl false s)

  -- The `for` loop, with the number of turns that are left.
  unfoldable pub pulse_loop : ℕ → lines.State → lines.State
  pulse_loop zero s = s
  pulse_loop (suc left) s =
      let later = pulse_loop left (pulse s) in
      if lines.sda_is_high (pulse s) then pulse s else later

  abbrev pub stop : lines.State → lines.State
  stop s = lines.set_sda true (lines.set_scl true (lines.set_sda false (lines.set_scl false s)))

  -- Both lines are made outputs that are high.
  abbrev pub idle : lines.State → lines.State
  idle s = lines.set_sda true (lines.set_scl true s)

  -- The loop of nine turns runs on the idle lines, and a STOP follows.
  unfoldable pub recover_bus : lines.State → lines.State
  unfolding pulse_loop
  recover_bus s = stop (pulse_loop 9 (idle s))

  abbrev pub pulses : ℕ → lines.State → lines.State
  pulses zero s = s
  pulses (suc n) s = pulses n (pulse s)

  -- The loop ends after `n` pulses, and no earlier one had let SDA go.
  record Ends (left : ℕ) (s : lines.State) : Type 0 where
    n : ℕ
    at_most : n ≤ left
    at_least : 1 ≤ left → 1 ≤ n
    same : pulse_loop left s ≡ pulses n s
    done : (lines.sda_is_high (pulses n s) ≡ true) ⊎ (n ≡ left)
    needed : (k : ℕ) → suc k < n → lines.sda_is_high (pulses (suc k) s) ≡ false

  between :
      (s : lines.State) (left : ℕ)
      → lines.sda_is_high (pulse s) ≡ false
      → (later : Ends left (pulse s)) → (k : ℕ) → suc k < suc later.n
      → lines.sda_is_high (pulses (suc k) s) ≡ false
  between s left h later zero lt = h
  between s left h later (suc k) lt = later.needed k (omega arith)

  loop-Ends : (left : ℕ) (s : lines.State) → Ends left s
  unfolding pulse_loop
  loop-Ends zero s = record {
    n = 0;
    at_most = omega arith;
    at_least = λ h. h;
    same = refl;
    done = inr refl;
    needed = λ k h. absurd (omega arith);
  }
  loop-Ends (suc left) s = elim (Bool-cases (lines.sda_is_high (pulse s))) [
    | inl h ↦ record {
      n = 1;
      at_most = omega arith;
      at_least = λ _. omega arith;
      same = rw h refl;
      done = inl h;
      needed = λ k lt. absurd (omega arith);
    }
    | inr h ↦
        let later = loop-Ends left (pulse s) in
        record {
          n = suc later.n;
          at_most = omega (arith, later.at_most);
          at_least = λ _. omega arith;
          same = rw h later.same;
          done = elim later.done [ inl e ↦ inl e | inr e ↦ inr (ap suc e) ];
          needed = between s left h later;
        }
  ]

  -- Whatever the chip does, the recovery is at least one and at most nine clock pulses on the idle
  -- lines and then the STOP condition, and it makes fewer than nine only when SDA is high after the
  -- last of them.
  pub recovery_ends :
      (s : lines.State)
      → (n : ℕ) × (1 ≤ n)
        × (n ≤ 9)
        × (recover_bus s ≡ stop (pulses n (idle s)))
        × ((lines.sda_is_high (pulses n (idle s)) ≡ true) ⊎ (n ≡ 9))
  unfolding recover_bus
  recovery_ends s =
      let e = loop-Ends 9 (idle s) in
      (e.n, e.at_least (omega arith), e.at_most, ap stop e.same, e.done)

  not_past :
      (s : lines.State) (k : ℕ) (e : Ends 9 s)
      → lines.sda_is_high (pulses (suc k) s) ≡ true
      → e.n ≤ suc k
  not_past s k e h = elim (early_or_late (suc k) e.n) [
    | inl early ↦ cc (sym h ∙ e.needed k early)
    | inr late ↦ late
  ]
    where
      early_or_late : (a b : ℕ) → (a < b) ⊎ (b ≤ a)
      early_or_late a b = ground arith

  -- A chip that would let SDA go after some pulse of the first nine is clocked no further than that,
  -- and SDA is high when the STOP condition begins.
  pub recovery_frees_bus :
      (s : lines.State) (k : ℕ)
      → k < 9
      → lines.sda_is_high (pulses (suc k) s) ≡ true
      → (n : ℕ) × (n ≤ suc k)
        × (pulse_loop 9 s ≡ pulses n s)
        × (lines.sda_is_high (pulse_loop 9 s) ≡ true)
  recovery_frees_bus s k lt h =
      let e = loop-Ends 9 s in
      let early = not_past s k e h in
      (
        e.n,
        early,
        e.same,
        ap lines.sda_is_high e.same ∙ elim e.done [
          | inl d ↦ d
          | inr full ↦
              let last : suc k ≡ e.n = omega (arith, full, early, lt) in
              subst (λ m. lines.sda_is_high (pulses m s) ≡ true) last h
        ],
      )
