-- ===== src/Outputs/Relay.antt =====
-- The relay's pulse: high exactly in the pulse, and for two seconds after the last command.
use jzf407_rust.Prelude.{
  ℕ, ◌+◌, ◌≤◌, ◌≡◌, inl, inr, refl, ap, ◌∙◌, subst, Bool, true, false, Option, none, some, some_inj,
  leb, arith, Bool-cases,
}
use jzf407_rust.Outputs.{
  RelayCmd, pulse, off, relay_pulse, OutputPins, set_relay, get_relay, Phase, idle, pulsing,
  RelayState, relay_task, signal, begin_pulse, end_pulse, in_pulse,
}

abbrev in_pulse? : Phase → Bool
in_pulse? idle = false
in_pulse? (pulsing until) = true

-- The pins are registered, nothing else holds the lock, and the relay is high exactly in a pulse.
pub record IsDriven (s : RelayState) : Type 0 where
  pub free : s.outputs.held ≡ false
  pub pins : OutputPins
  pub registered : s.outputs.pins ≡ some pins
  pub level : pins.relay_pin ≡ in_pulse? s.phase

-- Commands, by any task, and turns of the relay task at later and later times.
pub data RelayRun : ℕ → RelayState → Type 0 where
  boot :
      {pins : OutputPins} (now : ℕ)
      → pins.relay_pin ≡ false
      → RelayRun now (record {
        phase = idle;
        trigger = none;
        outputs = record { held = false; pins = some pins };
        relay_change = none;
      })
  command :
      {now : ℕ} {s : RelayState} (cmd : RelayCmd)
      → RelayRun now s
      → RelayRun now (record s { trigger = signal cmd s.trigger })
  turn :
      {now : ℕ} {s s' : RelayState} (later : ℕ)
      → RelayRun now s
      → now ≤ later
      → relay_task later s ≡ some s'
      → RelayRun later s'

module _ (now : ℕ) (s : RelayState) (i : IsDriven s) where
  driven :
      (on : Bool)
      → ((set_relay on s.outputs).held ≡ false)
        × ((set_relay on s.outputs).pins ≡ some (record i.pins { relay_pin = on }))
  unfolding set_relay
  driven true = ground (arith, i.free, i.registered)
  driven false = ground (arith, i.free, i.registered)

  begin_pulse-IsDriven : IsDriven (begin_pulse now s)
  begin_pulse-IsDriven = record {
    free = (driven true).0;
    pins = record i.pins { relay_pin = true };
    registered = (driven true).1;
    level = refl;
  }

  end_pulse-IsDriven : (left : Option RelayCmd) → IsDriven (end_pulse left s)
  end_pulse-IsDriven left = record {
    free = (driven false).0;
    pins = record i.pins { relay_pin = false };
    registered = (driven false).1;
    level = refl;
  }

  -- Where a turn leads, from each phase and with each command.
  data Turned : RelayState → Type 0 where
    begins : Turned (begin_pulse now s)
    ends : (left : Option RelayCmd) → Turned (end_pulse left s)
    ignores : s.phase ≡ idle → Turned (record s { phase = idle; trigger = none })

  turned :
      (p : Phase) (t : Option RelayCmd) {s' : RelayState}
      → s.phase ≡ p
      → s.trigger ≡ t
      → relay_task now s ≡ some s'
      → Turned s'
  unfolding relay_task
  turned idle none hp ht e = cc (rw (hp, ht) at e)
  turned idle (some pulse) hp ht e = subst Turned (some_inj (rw (hp, ht) at e)) begins
  turned idle (some off) hp ht e = subst Turned (some_inj (rw (hp, ht) at e)) (ignores hp)
  turned (pulsing until) t {s'} hp ht e = elim (Bool-cases (leb until now)) [
    | inl h ↦ subst Turned (some_inj (rw (hp, h) at e)) (ends s.trigger)
    | inr h ↦ commanded t ht (rw (hp, h) at e)
  ]
    where
      commanded :
          (t : Option RelayCmd)
          → s.trigger ≡ t
          → in_pulse now s.trigger (record s { phase = pulsing until }) ≡ some s'
          → Turned s'
      commanded none ht e = cc (rw ht at e)
      commanded (some pulse) ht e = subst Turned (some_inj (rw ht at e)) begins
      commanded (some off) ht e = subst Turned (some_inj (rw ht at e)) (ends none)

  Turned-IsDriven : {s' : RelayState} → Turned s' → IsDriven s'
  Turned-IsDriven begins = begin_pulse-IsDriven
  Turned-IsDriven (ends left) = end_pulse-IsDriven left
  Turned-IsDriven (ignores h) = record {
    free = i.free;
    pins = i.pins;
    registered = i.registered;
    level = i.level ∙ ap in_pulse? h;
  }

run-IsDriven : {now : ℕ} {s : RelayState} → RelayRun now s → IsDriven s
run-IsDriven (boot {pins} now low) = record {
  free = refl;
  pins = pins;
  registered = refl;
  level = low;
}
run-IsDriven (command {now} {s} cmd before) =
    let i = run-IsDriven before in
    record { free = i.free; pins = i.pins; registered = i.registered; level = i.level }
run-IsDriven (turn {now} {s} {s'} later before _ e) =
    let i = run-IsDriven before in
    Turned-IsDriven later s i (turned later s i s.phase s.trigger refl refl e)

-- Every pulse ends at most two seconds after the last turn of the task.
run_deadline :
    {now until : ℕ} {s : RelayState}
    → RelayRun now s
    → s.phase ≡ pulsing until
    → until ≤ now + relay_pulse
run_deadline (boot now low) h = cc
run_deadline (command cmd before) h = run_deadline before h
run_deadline {until = until} (turn {now} {s} {s'} later before le e) h =
    let i = run-IsDriven before in go (turned later s i s.phase s.trigger refl refl e) h
  where
    until_inj : {a b : ℕ} → pulsing a ≡ pulsing b → a ≡ b
    until_inj {a} e = ap (λ p. elim p [ idle ↦ a | pulsing x ↦ x ]) e

    go :
        {t : RelayState}
        → Turned later s (run-IsDriven before) t
        → t.phase ≡ pulsing until
        → until ≤ later + relay_pulse
    go begins h = omega (arith, until_inj h)
    go (ends left) h = cc
    go (ignores rest) h = cc

high-pulsing :
    (s : RelayState)
    → IsDriven s
    → get_relay s.outputs ≡ true
    → (until : ℕ) × (s.phase ≡ pulsing until)
unfolding get_relay
high-pulsing s i h = of_phase s.phase (ground (arith, i.free, i.registered, i.level))
  where
    of_phase : (p : Phase) → in_pulse? p ≡ true → (until : ℕ) × (p ≡ pulsing until)
    of_phase idle e = cc
    of_phase (pulsing until) e = (until, refl)

low : (s : RelayState) → IsDriven s → s.phase ≡ idle → get_relay s.outputs ≡ false
unfolding get_relay
low s i h = ground (arith, i.free, i.registered, i.level, ap in_pulse? h)

ends_late :
    (now until : ℕ) (s : RelayState)
    → s.phase ≡ pulsing until
    → until ≤ now
    → relay_task now s ≡ some (end_pulse s.trigger s)
unfolding relay_task
ends_late now until s h late = let over : leb until now ≡ true = ground arith in rw (h, over) refl

-- Whatever commands came, if the relay is on after a turn of the task, a turn two seconds or more
-- later switches it off and tells MQTT that it is off. (The pins are registered, the relay was off at
-- the start, and no other task holds the lock.)
pub relay_pulse_ends :
    {now : ℕ} {s : RelayState} (later : ℕ)
    → RelayRun now s
    → get_relay s.outputs ≡ true
    → now + relay_pulse ≤ later
    → (s' : RelayState) × (relay_task later s ≡ some s')
      × (get_relay s'.outputs ≡ false)
      × (s'.relay_change ≡ some false)
relay_pulse_ends {now} {s} later run on late =
    let i = run-IsDriven run in
    let (until, h) = high-pulsing s i on in
    (
      end_pulse s.trigger s,
      ends_late later until s h (omega (arith, run_deadline run h)),
      low _ (end_pulse-IsDriven later s i s.trigger) refl,
      refl,
    )
