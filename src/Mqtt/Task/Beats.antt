-- ===== src/Mqtt/Task/Beats.antt =====
-- The heartbeat of the connected loop.
use jzf407_rust.Prelude.{
  ℕ, ◌+◌, ◌≤◌, ◌<◌, ◌≡◌, ◌⊎◌, inl, inr, refl, ap, ◌∙◌, subst, Bool, List, [], ◌∷◌, ◌++◌, Bytes, leb,
  leb→le, Bool-cases, arith,
}
use jzf407_rust.Text.{codes}
use jzf407_rust.Eeprom.{Bus}
use jzf407_rust.FaultMarker.{ResetReason}
use jzf407_rust.Mqtt.{
  Publication, Handled, publish_qos0, topic_heartbeat, heartbeat_interval_ms, after_select,
  heartbeat, timeout,
}
use jzf407_rust.Mqtt.Task.{Place, looping, Task, Answer, Moved, turned, step}

abbrev pub beat : Publication
beat = publish_qos0 topic_heartbeat (codes "1")

-- The publication is among those sent.
abbrev pub Sends : Publication → List Publication → Type 0
Sends p [] = ⊥
Sends p (q ∷ qs) = (q ≡ p) ⊎ Sends p qs

Sends-left : (p : Publication) (xs ys : List Publication) → Sends p xs → Sends p (xs ++ ys)
Sends-left p (x ∷ xs) ys (inl e) = inl e
Sends-left p (x ∷ xs) ys (inr h) = inr (Sends-left p xs ys h)
Sends-left p [] ys h = absurd h

Sends-right : (p : Publication) (xs ys : List Publication) → Sends p ys → Sends p (xs ++ ys)
Sends-right p [] ys h = h
Sends-right p (x ∷ xs) ys h = inr (Sends-right p xs ys h)

-- The loop waits no longer than until the next heartbeat is due, and never more than a second.
pub wait_bounded :
    (bus : Bus) (next now : ℕ)
    → (timeout bus next now ≤ 1000) × (now ≤ next → now + timeout bus next now ≤ next)
wait_bounded bus next now = (omega arith, λ h. omega arith)

heartbeat_now :
    (bus : Bus) (now next : ℕ)
    → next ≤ now
    → heartbeat bus now next ≡ (now + heartbeat_interval_ms, beat ∷ [])
unfolding heartbeat
heartbeat_now bus now next h = ground arith

heartbeat_later : (bus : Bus) (now next : ℕ) → now < next → heartbeat bus now next ≡ (next, [])
unfolding heartbeat
heartbeat_later bus now next h = ground arith

module _ (bus : Bus) (is_filter : Bytes → Bool) (reason : ResetReason) where
  -- The publications of a run of turns.
  unfoldable pub sent_in : List (Answer bus) → Task bus → List Publication
  sent_in [] t = []
  sent_in (a ∷ answers) t =
      (step bus is_filter reason a t).sent ++ sent_in answers (step bus is_filter reason a t).task

  abbrev pub IsLooping : Place → Type 0
  IsLooping (looping next) = Unit
  IsLooping place = ⊥

  -- The connection lasts for a run of turns.
  abbrev pub Lasts : List (Answer bus) → Task bus → Type 0
  Lasts [] t = IsLooping t.place
  Lasts (a ∷ answers) t = IsLooping t.place × Lasts answers (step bus is_filter reason a t).task

  turned-place :
      (next : ℕ) (beats : List Publication) (out : Handled bus × Bool)
      → IsLooping (turned bus is_filter reason next beats out).task.place
      → (turned bus is_filter reason next beats out).task.place ≡ looping next
  turned-place next beats (h, continues) l = elim (Bool-cases h.restarts) [
    | inl r ↦ absurd (rw r at l)
    | inr r ↦ elim (Bool-cases continues) [
      | inl c ↦ rw (r, c) refl
      | inr c ↦ absurd (rw (r, c) at l)
    ]
  ]

  step_looping :
      (next : ℕ) (a : Answer bus) (t : Task bus)
      → t.place ≡ looping next
      → step bus is_filter reason a t
        ≡ turned bus is_filter reason
            (heartbeat bus a.now next).0
            (heartbeat bus a.now next).1
            (after_select bus a.selected a.accepted t.device)
  unfolding step
  step_looping next a t e = rw e

  Lasts-head : (rest : List (Answer bus)) (t : Task bus) → Lasts rest t → IsLooping t.place
  Lasts-head [] t h = h
  Lasts-head (c ∷ rest) t h = h.0

  -- As long as a connection lasts, a heartbeat is never skipped: when some turn of the loop reads the
  -- clock at the time that is planned for the next heartbeat or later, a heartbeat is among what was
  -- published up to the end of that turn, whatever came in on the turns before it.
  pub heartbeat_due :
      (answers : List (Answer bus)) (a : Answer bus) (t : Task bus) (next : ℕ)
      → t.place ≡ looping next
      → next ≤ a.now
      → Lasts answers t
      → Sends beat (sent_in (answers ++ a ∷ []) t)
  unfolding sent_in
  heartbeat_due [] a t next e due l =
      Sends-left beat (step bus is_filter reason a t).sent []
        (rw (step_looping next a t e, heartbeat_now bus a.now next due) (inl refl))
  heartbeat_due (b ∷ answers) a t next e due l = elim (Bool-cases (leb next b.now)) [
    | inl k ↦
        Sends-left beat (step bus is_filter reason b t).sent
          (sent_in (answers ++ a ∷ []) (step bus is_filter reason b t).task)
          (rw (step_looping next b t e, heartbeat_now bus b.now next (leb→le next b.now k))
            (inl refl))
    | inr k ↦
        Sends-right beat (step bus is_filter reason b t).sent
          (sent_in (answers ++ a ∷ []) (step bus is_filter reason b t).task)
          (heartbeat_due answers a (step bus is_filter reason b t).task next (still (ground arith))
            due l.1)
  ]
    where
      still : b.now < next → (step bus is_filter reason b t).task.place ≡ looping next
      still h =
          let same : step bus is_filter reason b t
              ≡ turned bus is_filter reason next []
                  (after_select bus b.selected b.accepted t.device) =
            step_looping next b t e ∙ rw (heartbeat_later bus b.now next h) refl in
          ap (λ (m : Moved bus). m.task.place) same
          ∙ turned-place next [] (after_select bus b.selected b.accepted t.device)
              (subst (λ (m : Moved bus). IsLooping m.task.place) same (Lasts-head answers _ l.1))
