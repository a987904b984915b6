-- ===== src/Web/Form/Fields.antt =====
-- The configurations that the form makes are valid.
use jzf407_rust.Prelude.{
  ℕ, ◌≤◌, ◌≡◌, subst, ◌&&◌, Option, some, some_inj, List, [], ◌∷◌, Bytes, leb, bytes_eq, arith,
  guard, guard-eq-some, ◌>>◌, ◌<◌, ◌>>=◌, >>=-eq-some,
}
use jzf407_rust.Text.{codes}
use jzf407_rust.Text.Utf8.{IsField, trim}
use jzf407_rust.Text.Split.{split, key_value}
use jzf407_rust.Text.Decimal.{parse_uint}
use jzf407_rust.WebForm.{to_option, form_url_decode, secret_from_form}
use jzf407_rust.NetConfig.{NetworkConfig, cred_max, fit, parse_ipv4, parse_port}
use jzf407_rust.NetConfig.Valid.{IsAddress, IsValid}
use jzf407_rust.NetConfig.Address.{parse_ipv4-IsAddress, parse_port_range}
use jzf407_rust.Web.Form.Values.{either_way, fit-IsField, secret-IsField, decoded-IsField}
use jzf407_rust.Web.Form.{set_field, form_step, form_loop, parse_form}

abbrev IsPrefix : ℕ → Type 0
IsPrefix p = (1 ≤ p) × (p ≤ 32)

abbrev IsPort : ℕ → Type 0
IsPort p = (1 ≤ p) × (p < 65536)

assembled :
    {next : NetworkConfig}
    → IsAddress next.ip
    → IsPrefix next.prefix_len
    → IsAddress next.gateway
    → IsAddress next.broker_ip
    → IsPort next.broker_port
    → IsField 24 next.client_id
    → IsField cred_max next.mqtt_user
    → IsField cred_max next.mqtt_pass
    → IsField cred_max next.web_user
    → IsField cred_max next.web_pass
    → IsValid next
assembled ip prefix gw broker port id mu mp wu wp = record {
  ip = ip;
  gateway = gw;
  broker_ip = broker;
  prefix_pos = prefix.0;
  prefix_le = prefix.1;
  port_pos = port.0;
  port_lt = port.1;
  client_id = id;
  mqtt_user = mu;
  mqtt_pass = mp;
  web_user = wu;
  web_pass = wp;
}

-- One field set to a value that passed a check, which gives the new configuration its validity.
set_one :
    {A : Type 0} (got : Option A) (put : A → NetworkConfig) {next : NetworkConfig}
    → (got >>= λ x. some (put x)) ≡ some next
    → ((x : A) → got ≡ some x → IsValid (put x))
    → IsValid next
set_one got put e valid =
    let (x, a, same) = >>=-eq-some got (λ x. some (put x)) e in
    subst IsValid (some_inj same) (valid x a)

set_prefix :
    (cfg : NetworkConfig) (val : Bytes) {next : NetworkConfig}
    → (parse_uint 255 val >>= λ p.
        guard (leb 1 p && leb p 32) >> some (record cfg { prefix_len = p }))
      ≡ some next
    → ((p : ℕ) → IsPrefix p → IsValid (record cfg { prefix_len = p }))
    → IsValid next
set_prefix cfg val e valid =
    let (p, a, later) =
      >>=-eq-some (parse_uint 255 val)
        (λ p. guard (leb 1 p && leb p 32) >> some (record cfg { prefix_len = p })) e in
    let (u, range, same) =
      >>=-eq-some (guard (leb 1 p && leb p 32)) (λ _. some (record cfg { prefix_len = p })) later in
    let within = guard-eq-some (leb 1 p && leb p 32) range in
    subst IsValid (some_inj same) (valid p (ground arith))

module _ (current : NetworkConfig) (now : IsValid current) where
  set_field-IsValid :
      (key val : Bytes) (cfg next : NetworkConfig)
      → IsValid cfg
      → IsField 64 val
      → set_field current key val cfg ≡ some next
      → IsValid next
  unfolding set_field
  set_field-IsValid key val cfg next v f e =
      let prefix : IsPrefix cfg.prefix_len = (v.prefix_pos, v.prefix_le) in
      let port : IsPort cfg.broker_port = (v.port_pos, v.port_lt) in
      either_way (bytes_eq key (codes "ip")) e
        (λ _ h.
          set_one (parse_ipv4 val) (λ x. record cfg { ip = x }) h
            (λ x a.
              assembled (parse_ipv4-IsAddress val x a) prefix v.gateway v.broker_ip port v.client_id
                v.mqtt_user v.mqtt_pass v.web_user v.web_pass))
        λ e.
          either_way (bytes_eq key (codes "prefix")) e
            (λ _ h. set_prefix cfg val h (λ p range.
              assembled v.ip range v.gateway v.broker_ip port v.client_id v.mqtt_user v.mqtt_pass
                v.web_user v.web_pass))
            λ e.
              either_way (bytes_eq key (codes "gw")) e
                (λ _ h.
                  set_one (parse_ipv4 val) (λ x. record cfg { gateway = x }) h
                    (λ x a.
                      assembled v.ip prefix (parse_ipv4-IsAddress val x a) v.broker_ip port
                        v.client_id v.mqtt_user v.mqtt_pass v.web_user v.web_pass))
                λ e.
                  either_way (bytes_eq key (codes "broker")) e
                    (λ _ h.
                      set_one (parse_ipv4 val) (λ x. record cfg { broker_ip = x }) h
                        (λ x a.
                          assembled v.ip prefix v.gateway (parse_ipv4-IsAddress val x a) port
                            v.client_id v.mqtt_user v.mqtt_pass v.web_user v.web_pass))
                    λ e.
                      either_way (bytes_eq key (codes "port")) e
                        (λ _ h.
                          set_one (parse_port val) (λ x. record cfg { broker_port = x }) h
                            (λ x a.
                              assembled v.ip prefix v.gateway v.broker_ip (parse_port_range val x a)
                                v.client_id v.mqtt_user v.mqtt_pass v.web_user v.web_pass))
                        λ e.
                          either_way (bytes_eq key (codes "id")) e
                            (λ _ h.
                              set_one (fit 24 val) (λ x. record cfg { client_id = x }) h
                                (λ x a.
                                  assembled v.ip prefix v.gateway v.broker_ip port
                                    (fit-IsField 24 val x f a) v.mqtt_user v.mqtt_pass v.web_user
                                    v.web_pass))
                            λ e.
                              either_way (bytes_eq key (codes "muser")) e
                                (λ _ h.
                                  set_one (fit cred_max val) (λ x. record cfg { mqtt_user = x }) h
                                    (λ x a.
                                      assembled v.ip prefix v.gateway v.broker_ip port v.client_id
                                        (fit-IsField cred_max val x f a) v.mqtt_pass v.web_user
                                        v.web_pass))
                                λ e.
                                  either_way (bytes_eq key (codes "mpass")) e
                                    (λ _ h.
                                      set_one
                                        (to_option
                                          (secret_from_form cred_max current.mqtt_pass val))
                                        (λ x. record cfg { mqtt_pass = x }) h
                                        (λ x a.
                                          assembled v.ip prefix v.gateway v.broker_ip port
                                            v.client_id v.mqtt_user
                                            (secret-IsField cred_max current.mqtt_pass val x
                                              now.mqtt_pass f a)
                                            v.web_user v.web_pass))
                                    λ e.
                                      either_way (bytes_eq key (codes "wuser")) e
                                        (λ _ h.
                                          set_one (fit cred_max val)
                                            (λ x. record cfg { web_user = x }) h
                                            (λ x a.
                                              assembled v.ip prefix v.gateway v.broker_ip port
                                                v.client_id v.mqtt_user v.mqtt_pass
                                                (fit-IsField cred_max val x f a) v.web_pass))
                                        λ e.
                                          either_way (bytes_eq key (codes "wpass")) e
                                            (λ _ h.
                                              set_one
                                                (to_option
                                                  (secret_from_form cred_max current.web_pass val))
                                                (λ x. record cfg { web_pass = x }) h
                                                (λ x a.
                                                  assembled v.ip prefix v.gateway v.broker_ip port
                                                    v.client_id v.mqtt_user v.mqtt_pass v.web_user
                                                    (secret-IsField cred_max current.web_pass val x
                                                      now.web_pass f a)))
                                            λ e. subst IsValid (some_inj e) v

  form_step-IsValid :
      (pair : Bytes) (cfg next : NetworkConfig)
      → IsValid cfg
      → form_step current pair cfg ≡ some next
      → IsValid next
  unfolding form_step
  form_step-IsValid pair cfg next v e =
      let raw = trim (key_value b'=' pair).1 in
      let key = trim (key_value b'=' pair).0 in
      let (val, got, set) =
        >>=-eq-some (to_option (form_url_decode 64 raw)) (λ x. set_field current key x cfg) e in
      set_field-IsValid key val cfg next v (decoded-IsField raw val got) set

  form_loop-IsValid :
      (pairs : List Bytes) (cfg next : NetworkConfig)
      → IsValid cfg
      → form_loop current pairs cfg ≡ some next
      → IsValid next
  unfolding form_loop
  form_loop-IsValid [] cfg next v e = subst IsValid (some_inj e) v
  form_loop-IsValid (pair ∷ pairs) cfg next v e =
      let (mid, one, later) =
        >>=-eq-some (form_step current pair cfg) (form_loop current pairs) e in
      form_loop-IsValid pairs mid next (form_step-IsValid pair cfg mid v one) later

  -- Whatever the body of a form holds, a configuration that `parse_form` makes out of a valid one
  -- is valid: no form can store a prefix length, a port or a text that the next boot would choke on.
  pub parse_form-IsValid :
      (body : Bytes) (next : NetworkConfig) → parse_form body current ≡ some next → IsValid next
  unfolding parse_form
  parse_form-IsValid body next e = form_loop-IsValid (split b'&' body) current next now e
