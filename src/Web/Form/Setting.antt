-- ===== src/Web/Form/Setting.antt =====
-- What one field of the form sets, when its value is one that the page may show.
use jzf407_rust.Prelude.{
  ℕ, ◌≤◌, ◌<◌, ◌≡◌, refl, false, some, [], ◌∷◌, ◌++◌, Bytes, All-append, length, length-append,
  bytes_eq, le→leb, arith, ◌==◌,
}
use jzf407_rust.Text.{codes}
use jzf407_rust.Text.Utf8.{IsField}
use jzf407_rust.Text.Utf8.Trim.{Printable, trim-Printable}
use jzf407_rust.Text.Utf8.Range.{Digits-Printable, Printable-IsField}
use jzf407_rust.Text.Decimal.{
  to_decimal, to_decimal-Digits, length-to_decimal, parse_uint-to_decimal,
}
use jzf407_rust.WebForm.{secret_from_form, ok}
use jzf407_rust.NetConfig.{Ipv4, NetworkConfig, cred_max, parse_port}
use jzf407_rust.NetConfig.Valid.{IsAddress}
use jzf407_rust.NetConfig.Address.{dotted, parse_ipv4-dotted}
use jzf407_rust.Web.Form.{set_field}

pub decimal-Printable : (v : ℕ) → Printable (to_decimal v)
decimal-Printable v = Digits-Printable (to_decimal v) (to_decimal-Digits v)

dotted-Printable : (ip : Ipv4) → Printable (dotted ip)
dotted-Printable ip = put ip.a _ (
  (omega arith, omega arith),
  put ip.b _
      ((omega arith, omega arith), put ip.c _ ((omega arith, omega arith), decimal-Printable ip.d)),
)
  where
    put : (v : ℕ) (rest : Bytes) → Printable rest → Printable (to_decimal v ++ rest)
    put v rest h =
        All-append (λ b. (33 ≤ b) × (b < 0x80)) (to_decimal v) rest (decimal-Printable v) h

pub decimal-IsField : (v : ℕ) → v < 65536 → IsField 64 (to_decimal v)
decimal-IsField v h =
    Printable-IsField 64 (to_decimal v) (decimal-Printable v)
      (omega (arith, length-to_decimal 4 v (omega arith)))

pub dotted-IsField : (ip : Ipv4) → IsAddress ip → IsField 64 (dotted ip)
dotted-IsField ip h = Printable-IsField 64 (dotted ip) (dotted-Printable ip) (
    omega (
      arith,
      length-append (to_decimal ip.a)
          (b'.' ∷ to_decimal ip.b ++ (b'.' ∷ to_decimal ip.c ++ (b'.' ∷ to_decimal ip.d))),
      length-append (to_decimal ip.b) (b'.' ∷ to_decimal ip.c ++ (b'.' ∷ to_decimal ip.d)),
      length-append (to_decimal ip.c) (b'.' ∷ to_decimal ip.d),
      length-to_decimal 2 ip.a (omega (arith, h.a_lt)),
      length-to_decimal 2 ip.b (omega (arith, h.b_lt)),
      length-to_decimal 2 ip.c (omega (arith, h.c_lt)),
      length-to_decimal 2 ip.d (omega (arith, h.d_lt)),
    ))

pub IsField-64 : (n : ℕ) (s : Bytes) → n ≤ 64 → IsField n s → IsField 64 s
IsField-64 n s h f = record { fits = omega (arith, f.fits); no_nul = f.no_nul; utf8 = f.utf8 }

abbrev pub or_kept : Bytes → Bytes → Bytes
or_kept current [] = current
or_kept current (b ∷ s) = b ∷ s

secret_kept :
    (n : ℕ) (current s : Bytes)
    → length s ≤ n
    → secret_from_form n current s ≡ ok (or_kept current s)
unfolding secret_from_form
secret_kept n current [] h = refl
secret_kept n current (b ∷ s) h = ground arith

module _ (current : NetworkConfig) where
  module _ (c : NetworkConfig) (ip : Ipv4) (h : IsAddress ip) where
    pub set_ip : set_field current (codes "ip") (dotted ip) c ≡ some (record c { ip = ip })
    unfolding set_field bytes_eq
    set_ip = rw (parse_ipv4-dotted ip h)

    pub set_gw : set_field current (codes "gw") (dotted ip) c ≡ some (record c { gateway = ip })
    unfolding set_field bytes_eq
    set_gw = rw (parse_ipv4-dotted ip h)

    pub set_broker :
        set_field current (codes "broker") (dotted ip) c ≡ some (record c { broker_ip = ip })
    unfolding set_field bytes_eq
    set_broker = rw (parse_ipv4-dotted ip h)

  pub set_prefix :
      (c : NetworkConfig) (p : ℕ)
      → 1 ≤ p
      → p ≤ 32
      → set_field current (codes "prefix") (to_decimal p) c ≡ some (record c { prefix_len = p })
  unfolding set_field bytes_eq
  set_prefix c p lo hi =
      rw (parse_uint-to_decimal 255 p (omega arith), le→leb 1 p lo, le→leb p 32 hi)

  pub set_port :
      (c : NetworkConfig) (p : ℕ)
      → 1 ≤ p
      → p < 65536
      → set_field current (codes "port") (to_decimal p) c ≡ some (record c { broker_port = p })
  unfolding set_field bytes_eq parse_port
  set_port c p lo hi =
      let nonzero : (p == 0) ≡ false = ground arith in
      rw (
        trim-Printable (to_decimal p) (decimal-Printable p),
        parse_uint-to_decimal 65535 p (omega arith),
        nonzero,
      )

  module _ (c : NetworkConfig) (s : Bytes) where
    pub set_id :
        length s ≤ 24 → set_field current (codes "id") s c ≡ some (record c { client_id = s })
    unfolding set_field bytes_eq
    set_id h = rw (le→leb _ _ h)

    pub set_muser :
        length s ≤ cred_max
        → set_field current (codes "muser") s c ≡ some (record c { mqtt_user = s })
    unfolding set_field bytes_eq
    set_muser h = rw (le→leb _ _ h)

    pub set_mpass :
        length s ≤ cred_max
        → set_field current (codes "mpass") s c
          ≡ some (record c { mqtt_pass = or_kept current.mqtt_pass s })
    unfolding set_field bytes_eq
    set_mpass h = rw (secret_kept cred_max current.mqtt_pass s h)

    pub set_wuser :
        length s ≤ cred_max
        → set_field current (codes "wuser") s c ≡ some (record c { web_user = s })
    unfolding set_field bytes_eq
    set_wuser h = rw (le→leb _ _ h)

    pub set_wpass :
        length s ≤ cred_max
        → set_field current (codes "wpass") s c
          ≡ some (record c { web_pass = or_kept current.web_pass s })
    unfolding set_field bytes_eq
    set_wpass h = rw (secret_kept cred_max current.web_pass s h)
