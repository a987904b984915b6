-- ===== src/Web/Form/Kept.antt =====
-- A password, once set, cannot be cleared with the form.
use jzf407_rust.Prelude.{
  ℕ, ◌≡◌, ◌&&◌, Option, some, some_inj, List, [], ◌∷◌, Bytes, arith, subst, >>=-eq-some, ◌>>=◌,
  bytes_eq, leb, guard, ◌>>◌,
}
use jzf407_rust.Text.{codes}
use jzf407_rust.Text.Utf8.{trim}
use jzf407_rust.Text.Split.{split, key_value}
use jzf407_rust.Text.Decimal.{parse_uint}
use jzf407_rust.WebForm.{to_option, form_url_decode, secret_from_form}
use jzf407_rust.NetConfig.{NetworkConfig, cred_max, fit, parse_ipv4, parse_port}
use jzf407_rust.Web.Form.{set_field, form_step, form_loop, parse_form}
use jzf407_rust.Web.Form.Values.{either_way}

-- There is a password.
abbrev pub Set : Bytes → Type 0
Set [] = ⊥
Set (b ∷ s) = Unit

secret-Set :
    (n : ℕ) (current s v : Bytes)
    → Set current
    → to_option (secret_from_form n current s) ≡ some v
    → Set v
unfolding secret_from_form
secret-Set n current [] v c e = subst Set (some_inj e) c
secret-Set n current (b ∷ rest) v c e = let same : b ∷ rest ≡ v = ground arith in subst Set same tt

-- A field set to what was got, whatever it is.
set_any :
    {A : Type 0} (got : Option A) (put : A → NetworkConfig) {next : NetworkConfig}
    → (got >>= λ x. some (put x)) ≡ some next
    → ((x : A) → got ≡ some x → Set (put x).web_pass)
    → Set next.web_pass
set_any got put e h =
    let (x, a, same) = >>=-eq-some got (λ x. some (put x)) e in
    subst (λ (c : NetworkConfig). Set c.web_pass) (some_inj same) (h x a)

set_guarded :
    (cfg : NetworkConfig) (val : Bytes) {next : NetworkConfig}
    → (parse_uint 255 val >>= λ p.
        guard (leb 1 p && leb p 32) >> some (record cfg { prefix_len = p }))
      ≡ some next
    → Set cfg.web_pass
    → Set next.web_pass
set_guarded cfg val e h =
    let (p, a, later) =
      >>=-eq-some (parse_uint 255 val)
        (λ p. guard (leb 1 p && leb p 32) >> some (record cfg { prefix_len = p })) e in
    let (u, range, same) =
      >>=-eq-some (guard (leb 1 p && leb p 32)) (λ _. some (record cfg { prefix_len = p })) later in
    subst (λ (c : NetworkConfig). Set c.web_pass) (some_inj same) h

module _ (current : NetworkConfig) (now : Set current.web_pass) where
  set_field-Set :
      (key val : Bytes) (cfg next : NetworkConfig)
      → Set cfg.web_pass
      → set_field current key val cfg ≡ some next
      → Set next.web_pass
  unfolding set_field
  set_field-Set key val cfg next h e =
      either_way (bytes_eq key (codes "ip")) e
        (λ _ k. set_any (parse_ipv4 val) (λ x. record cfg { ip = x }) k (λ _ _. h))
        λ e.
          either_way (bytes_eq key (codes "prefix")) e (λ _ k. set_guarded cfg val k h)
            λ e.
              either_way (bytes_eq key (codes "gw")) e
                (λ _ k. set_any (parse_ipv4 val) (λ x. record cfg { gateway = x }) k (λ _ _. h))
                λ e.
                  either_way (bytes_eq key (codes "broker")) e
                    (λ _ k.
                      set_any (parse_ipv4 val) (λ x. record cfg { broker_ip = x }) k (λ _ _. h))
                    λ e.
                      either_way (bytes_eq key (codes "port")) e
                        (λ _ k.
                          set_any (parse_port val) (λ x. record cfg { broker_port = x }) k
                            (λ _ _. h))
                        λ e.
                          either_way (bytes_eq key (codes "id")) e
                            (λ _ k.
                              set_any (fit 24 val) (λ x. record cfg { client_id = x }) k (λ _ _. h))
                            λ e.
                              either_way (bytes_eq key (codes "muser")) e
                                (λ _ k.
                                  set_any (fit cred_max val) (λ x. record cfg { mqtt_user = x }) k
                                    (λ _ _. h))
                                λ e.
                                  either_way (bytes_eq key (codes "mpass")) e
                                    (λ _ k.
                                      set_any
                                        (to_option
                                          (secret_from_form cred_max current.mqtt_pass val))
                                        (λ x. record cfg { mqtt_pass = x }) k (λ _ _. h))
                                    λ e.
                                      either_way (bytes_eq key (codes "wuser")) e
                                        (λ _ k.
                                          set_any (fit cred_max val)
                                            (λ x. record cfg { web_user = x }) k (λ _ _. h))
                                        λ e.
                                          either_way (bytes_eq key (codes "wpass")) e
                                            (λ _ k.
                                              set_any
                                                (to_option
                                                  (secret_from_form cred_max current.web_pass val))
                                                (λ x. record cfg { web_pass = x }) k
                                                (λ x a.
                                                  secret-Set cred_max current.web_pass val x now a))
                                            λ e.
                                              subst (λ (c : NetworkConfig). Set c.web_pass)
                                                (some_inj e) h

  loop-Set :
      (pairs : List Bytes) (cfg next : NetworkConfig)
      → Set cfg.web_pass
      → form_loop current pairs cfg ≡ some next
      → Set next.web_pass
  unfolding form_loop form_step
  loop-Set [] cfg next h e = subst (λ (c : NetworkConfig). Set c.web_pass) (some_inj e) h
  loop-Set (pair ∷ pairs) cfg next h e =
      let key = trim (key_value b'=' pair).0 in
      let raw = trim (key_value b'=' pair).1 in
      let (mid, one, later) =
        >>=-eq-some (form_step current pair cfg) (form_loop current pairs) e in
      let (val, got, set) =
        >>=-eq-some (to_option (form_url_decode 64 raw)) (λ x. set_field current key x cfg) one in
      loop-Set pairs mid next (set_field-Set key val cfg mid h set) later

  -- Once a web password is set, every form that is accepted leaves one set.
  pub parse_form-Set :
      (form : Bytes) (next : NetworkConfig)
      → parse_form form current ≡ some next
      → Set next.web_pass
  unfolding parse_form
  parse_form-Set form next e = loop-Set (split b'&' form) current next now e
