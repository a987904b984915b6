-- ===== src/NetConfig/Layout.antt =====
-- The image that `to_bytes` writes, field by field, and reading a field of it.
use jzf407_rust.Prelude.{
  ℕ, zero, suc, ◌+◌, ◌/◌, ◌%◌, ◌^◌, ◌≤◌, ◌≡◌, ap, ◌∙◌, min, [], ◌∷◌, ◌++◌, Bytes, length, take,
  take_all, replicate, copy_at, copy_at-append, overlay, overlay-zeros, padded, length-padded,
  arith,
}
use jzf407_rust.NetConfig.{NetworkConfig, octets, magic, cred_max, write_str, to_bytes}

-- The fixed part, before the texts.
abbrev pub head : NetworkConfig → Bytes
head cfg =
    magic
    ++ octets cfg.ip
    ++ (cfg.prefix_len ∷ 0 ∷ 0 ∷ 0 ∷ [])
    ++ octets cfg.gateway
    ++ octets cfg.broker_ip
    ++ (cfg.broker_port / 2 ^ 8 % 2 ^ 8 ∷ cfg.broker_port % 2 ^ 8 ∷ 0 ∷ [])

-- What `write_str` puts into a field of zeros.
abbrev cut : ℕ → Bytes → Bytes
cut n s = take (min (length s) n) s

cut_short : (n : ℕ) (s : Bytes) → length s ≤ n → cut n s ≡ s
cut_short n s h = take_all (min (length s) n) s (omega arith)

here_field :
    (n : ℕ) (s rest : Bytes)
    → length s ≤ n
    → overlay (replicate n 0 ++ rest) (cut n s) ≡ padded n s ++ rest
here_field n s rest h =
    ap (overlay (replicate n 0 ++ rest)) (cut_short n s h) ∙ overlay-zeros n s rest h

past_field :
    (n k : ℕ) (xs ys src : Bytes)
    → length xs ≡ n
    → copy_at (xs ++ ys) (n + k) src ≡ xs ++ copy_at ys k src
past_field zero k [] ys src e =
    let z : 0 + k ≡ k = omega arith in ap (λ (t : ℕ). copy_at ys t src) z
past_field zero k (x ∷ xs) ys src e = absurd (omega arith)
past_field (suc n) k [] ys src e = absurd (omega arith)
past_field (suc n) k (x ∷ xs) ys src e =
    let z : suc n + k ≡ suc (n + k) = omega arith in
    ap (λ (t : ℕ). copy_at (x ∷ (xs ++ ys)) t src) z
    ∙ ap (◌∷◌ x) (past_field n k xs ys src (omega arith))

next_field :
    (n m : ℕ) (s t rest : Bytes)
    → length t ≤ m
    → copy_at (padded n s ++ (replicate m 0 ++ rest)) n (cut m t)
      ≡ padded n s ++ (padded m t ++ rest)
next_field n m s t rest h =
    copy_at-append n (padded n s) _ _ (length-padded n s)
    ∙ ap (◌++◌ (padded n s)) (here_field m t rest h)

module _ (i u p v q : Bytes) (hi : length i ≤ 24) (hu : length u ≤ 32) (hp : length p ≤ 32)
    (hv : length v ≤ 32) (hq : length q ≤ 32) where
  skip :
      (k : ℕ) (ys src : Bytes)
      → copy_at (padded 24 i ++ ys) (24 + k) src ≡ padded 24 i ++ copy_at ys k src
  skip k ys src = past_field 24 k (padded 24 i) ys src (length-padded 24 i)

  skip_cred :
      (k : ℕ) (s ys src : Bytes)
      → copy_at (padded 32 s ++ ys) (32 + k) src ≡ padded 32 s ++ copy_at ys k src
  skip_cred k s ys src = past_field 32 k (padded 32 s) ys src (length-padded 32 s)

  texts₁ : overlay (replicate 152 0) (cut 24 i) ≡ padded 24 i ++ replicate 128 0
  texts₁ = here_field 24 i (replicate 128 0) hi

  texts₂ :
      copy_at (padded 24 i ++ replicate 128 0) 24 (cut 32 u)
      ≡ padded 24 i ++ (padded 32 u ++ replicate 96 0)
  texts₂ = next_field 24 32 i u (replicate 96 0) hu

  texts₃ :
      copy_at (padded 24 i ++ (padded 32 u ++ replicate 96 0)) 56 (cut 32 p)
      ≡ padded 24 i ++ (padded 32 u ++ (padded 32 p ++ replicate 64 0))
  texts₃ = skip 32 _ _ ∙ ap (◌++◌ (padded 24 i)) (next_field 32 32 u p (replicate 64 0) hp)

  texts₄ :
      copy_at (padded 24 i ++ (padded 32 u ++ (padded 32 p ++ replicate 64 0))) 88 (cut 32 v)
      ≡ padded 24 i ++ (padded 32 u ++ (padded 32 p ++ (padded 32 v ++ replicate 32 0)))
  texts₄ =
      skip 64 _ _
      ∙ ap (◌++◌ (padded 24 i))
          (skip_cred 32 u _ _ ∙ ap (◌++◌ (padded 32 u)) (next_field 32 32 p v (replicate 32 0) hv))

  texts₅ :
      copy_at
        (padded 24 i ++ (padded 32 u ++ (padded 32 p ++ (padded 32 v ++ replicate 32 0))))
        120
        (cut 32 q)
      ≡ padded 24 i ++ (padded 32 u ++ (padded 32 p ++ (padded 32 v ++ (padded 32 q ++ []))))
  texts₅ =
      skip 96 _ _
      ∙ ap (◌++◌ (padded 24 i)) (
          skip_cred 64 u _ _
          ∙ ap (◌++◌ (padded 32 u))
              (skip_cred 32 p _ _ ∙ ap (◌++◌ (padded 32 p)) (next_field 32 32 v q [] hq)))

  texts :
      copy_at
        (copy_at
          (copy_at (copy_at (overlay (replicate 152 0) (cut 24 i)) 24 (cut 32 u)) 56 (cut 32 p))
          88
          (cut 32 v))
        120
        (cut 32 q)
      ≡ padded 24 i ++ (padded 32 u ++ (padded 32 p ++ (padded 32 v ++ (padded 32 q ++ []))))
  texts = rw (texts₁, texts₂, texts₃, texts₄) texts₅

-- The texts of the image, each in its field.
abbrev pub fields : NetworkConfig → Bytes
fields cfg =
    padded 24 cfg.client_id
    ++ (padded 32 cfg.mqtt_user
        ++ (padded 32 cfg.mqtt_pass ++ (padded 32 cfg.web_user ++ (padded 32 cfg.web_pass ++ []))))

pub layout :
    (cfg : NetworkConfig)
    → length cfg.client_id ≤ 24
    → length cfg.mqtt_user ≤ cred_max
    → length cfg.mqtt_pass ≤ cred_max
    → length cfg.web_user ≤ cred_max
    → length cfg.web_pass ≤ cred_max
    → to_bytes cfg ≡ head cfg ++ fields cfg
unfolding to_bytes write_str
layout cfg hi hu hp hv hq =
    ap (◌++◌ (head cfg))
      (texts cfg.client_id cfg.mqtt_user cfg.mqtt_pass cfg.web_user cfg.web_pass hi hu hp hv hq)
