-- ===== src/Eeprom/Written.antt =====
-- What a run of writes leaves in the chip.
use jzf407_rust.Prelude.{
  cons_eq, ℕ, suc, ◌+◌, ◌%◌, ◌≤◌, ◌<◌, ◌≡◌, ◌≢◌, ◌⊎◌, inl, inr, refl, sym, ap, subst, ◌∙◌, Bool,
  true, false, [], ◌∷◌, Bytes, length, Bool-cases, arith,
}
use jzf407_rust.Eeprom.{Bus, bytes_from, write_loop, write_bytes}

-- An address outside the run that starts at `a` and is `n` long.
abbrev pub Outside : ℕ → ℕ → ℕ → Type 0
Outside a n x = (x < a) ⊎ (a + n ≤ x)

module _ (bus : Bus) where
  -- A run of `n` bytes from `start + i` on stays inside the 256 bytes, so its addresses do not wrap.
  address : (start i n : ℕ) → start + i + suc n ≤ 256 → (start + i % 256) % 256 ≡ start + i
  address start i n h = omega arith

  loop_keeps :
      (d : bus.Dev) (start i : ℕ) (bytes : Bytes) (x : ℕ)
      → start + i + length bytes ≤ 256
      → Outside (start + i) (length bytes) x
      → bus.view (write_loop bus d start i bytes).0 x ≡ bus.view d x
  unfolding write_loop
  loop_keeps d start i [] x room out = refl
  loop_keeps d start i (b ∷ rest) x room out = elim (Bool-cases sent.1) [
    | inl e ↦ rw e (loop_keeps sent.0 start (i + 1) rest x (omega arith) (ground arith) ∙ kept)
    | inr e ↦ rw e kept
  ]
    where
      sent : bus.Dev × Bool
      sent = bus.blocking_write d ((start + i % 256) % 256) b

      apart : x ≢ (start + i % 256) % 256
      apart e = absurd (ground (arith, address start i (length rest)))

      kept : bus.view sent.0 x ≡ bus.view d x
      kept = bus.write_keeps d ((start + i % 256) % 256) b x apart

  sent : bus.Dev → ℕ → ℕ → ℕ → bus.Dev × Bool
  sent d start i b = bus.blocking_write d ((start + i % 256) % 256) b

  loop_on :
      (d : bus.Dev) (start i b : ℕ) (rest : Bytes)
      → (sent d start i b).1 ≡ true
      → write_loop bus d start i (b ∷ rest) ≡ write_loop bus (sent d start i b).0 start (i + 1) rest
  unfolding write_loop sent
  loop_on d start i b rest e = rw e

  loop_stops :
      (d : bus.Dev) (start i b : ℕ) (rest : Bytes)
      → (sent d start i b).1 ≡ false
      → write_loop bus d start i (b ∷ rest) ≡ ((sent d start i b).0, false)
  unfolding write_loop sent
  loop_stops d start i b rest e = rw e

  first_stored :
      (d : bus.Dev) (start i b : ℕ) (rest : Bytes)
      → start + i + suc (length rest) ≤ 256
      → (sent d start i b).1 ≡ true
      → bus.view (write_loop bus (sent d start i b).0 start (i + 1) rest).0 (start + i) ≡ b
  unfolding sent
  first_stored d start i b rest room e =
      let same = address start i (length rest) room in
      loop_keeps (sent d start i b).0 start (i + 1) rest (start + i) (omega arith)
        (inl (omega arith))
      ∙ ap (bus.view (sent d start i b).0) (sym same)
      ∙ bus.write_stores d ((start + i % 256) % 256) b e

  loop_stores :
      (d : bus.Dev) (start i : ℕ) (bytes : Bytes)
      → start + i + length bytes ≤ 256
      → (write_loop bus d start i bytes).1 ≡ true
      → bytes_from (bus.view (write_loop bus d start i bytes).0) (start + i) (length bytes) ≡ bytes
  loop_stores d start i [] room h = refl
  loop_stores d start i (b ∷ rest) room h = elim (Bool-cases (sent d start i b).1) [
    | inl e ↦
        let on = loop_on d start i b rest e in
        let shift : start + (i + 1) ≡ suc (start + i) = omega arith in
        let ih = loop_stores (sent d start i b).0 start (i + 1) rest (omega arith) (rw on at h) in
        subst (λ r. bytes_from (bus.view r.0) (start + i) (suc (length rest)) ≡ b ∷ rest) (sym on)
          (cons_eq (first_stored d start i b rest room e) (rw shift at ih))
    | inr e ↦ cc (rw (loop_stops d start i b rest e) at h)
  ]

  -- A write that stays within the 256 addresses and reports success has stored every byte at its
  -- place.
  pub write_bytes_stores :
      (d : bus.Dev) (start : ℕ) (bytes : Bytes)
      → start + length bytes ≤ 256
      → (write_bytes bus d start bytes).1 ≡ true
      → bytes_from (bus.view (write_bytes bus d start bytes).0) start (length bytes) ≡ bytes
  unfolding write_bytes
  write_bytes_stores d start bytes room h =
      let z : start + 0 ≡ start = omega arith in
      rw z at (loop_stores d start 0 bytes (omega arith) h)

  -- A write changes nothing outside its run, whether it succeeds or stops half way.
  pub write_bytes_keeps :
      (d : bus.Dev) (start : ℕ) (bytes : Bytes) (x : ℕ)
      → start + length bytes ≤ 256
      → Outside start (length bytes) x
      → bus.view (write_bytes bus d start bytes).0 x ≡ bus.view d x
  unfolding write_bytes
  write_bytes_keeps d start bytes x room out =
      loop_keeps d start 0 bytes x (omega arith) (ground arith)
