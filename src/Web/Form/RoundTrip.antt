-- ===== src/Web/Form/RoundTrip.antt =====
-- The configuration that is typed into the form is the one that the server reads.
use jzf407_rust.Prelude.{ℕ, ◌≡◌, refl, some, [], ◌∷◌, Bytes, List, AreBytes, arith}
use jzf407_rust.Text.{codes}
use jzf407_rust.Text.Utf8.{IsField}
use jzf407_rust.Text.Utf8.Range.{valid_utf8-AreBytes}
use jzf407_rust.Text.Decimal.{to_decimal}
use jzf407_rust.NetConfig.{NetworkConfig, cred_max}
use jzf407_rust.NetConfig.Valid.{IsValid}
use jzf407_rust.NetConfig.Address.{dotted}
use jzf407_rust.Web.Form.{set_field, form_loop, parse_form}
use jzf407_rust.Web.Form.Submitted.{PlainFields, split_body, form_step-encode_field}
use jzf407_rust.Web.Browser.{Field, form_encode, encode_byte, encode_fields, form_body}
use jzf407_rust.Web.Form.Setting.{
  decimal-IsField, dotted-IsField, IsField-64, or_kept, set_ip, set_gw, set_broker, set_prefix,
  set_port, set_id, set_muser, set_mpass, set_wuser, set_wpass,
}

-- The form with a configuration in it, a password field left blank standing for the current one.
abbrev pub typed : NetworkConfig → List Field
typed new =
    (codes "ip", dotted new.ip)
    ∷ (codes "prefix", to_decimal new.prefix_len)
    ∷ (codes "gw", dotted new.gateway)
    ∷ (codes "broker", dotted new.broker_ip)
    ∷ (codes "port", to_decimal new.broker_port)
    ∷ (codes "id", new.client_id)
    ∷ (codes "muser", new.mqtt_user)
    ∷ (codes "mpass", new.mqtt_pass)
    ∷ (codes "wuser", new.web_user)
    ∷ (codes "wpass", new.web_pass)
    ∷ []

module _ (current : NetworkConfig) where
  -- One field in front of the others, when it is set.
  field_then :
      (name val : Bytes) (rest : List Field) (c next last : NetworkConfig)
      → form_encode name ≡ name
      → AreBytes name
      → IsField 64 val
      → set_field current name val c ≡ some next
      → form_loop current (encode_fields rest) next ≡ some last
      → form_loop current (encode_fields ((name, val) ∷ rest)) c ≡ some last
  unfolding form_loop encode_fields
  field_then name val rest c next last same plain f e later =
      rw (form_step-encode_field current c name val same plain f, e) later

  -- What a form with `new` in it is read as.
  abbrev pub read_back : NetworkConfig → NetworkConfig
  read_back new = record new {
    mqtt_pass = or_kept current.mqtt_pass new.mqtt_pass;
    web_pass = or_kept current.web_pass new.web_pass;
  }

  loop_end : (c : NetworkConfig) → form_loop current (encode_fields []) c ≡ some c
  unfolding form_loop encode_fields
  loop_end c = refl

  loop_texts :
      (new : NetworkConfig)
      → IsValid new
      → (c : NetworkConfig)
      → form_loop current
          (encode_fields (
            (codes "id", new.client_id)
            ∷ (codes "muser", new.mqtt_user)
            ∷ (codes "mpass", new.mqtt_pass)
            ∷ (codes "wuser", new.web_user)
            ∷ (codes "wpass", new.web_pass)
            ∷ []))
          c
        ≡ some (record c {
          client_id = new.client_id;
          mqtt_user = new.mqtt_user;
          mqtt_pass = or_kept current.mqtt_pass new.mqtt_pass;
          web_user = new.web_user;
          web_pass = or_kept current.web_pass new.web_pass;
        })
  unfolding form_encode encode_byte
  loop_texts new v c =
      field_then _ _ _ _ _ _ refl (omega arith)
        (IsField-64 24 new.client_id (omega arith) v.client_id)
        (set_id current _ new.client_id v.client_id.fits)
        (field_then _ _ _ _ _ _ refl (omega arith)
          (IsField-64 cred_max new.mqtt_user (omega arith) v.mqtt_user)
          (set_muser current _ new.mqtt_user v.mqtt_user.fits)
          (field_then _ _ _ _ _ _ refl (omega arith)
            (IsField-64 cred_max new.mqtt_pass (omega arith) v.mqtt_pass)
            (set_mpass current _ new.mqtt_pass v.mqtt_pass.fits)
            (field_then _ _ _ _ _ _ refl (omega arith)
              (IsField-64 cred_max new.web_user (omega arith) v.web_user)
              (set_wuser current _ new.web_user v.web_user.fits)
              (field_then _ _ _ _ _ _ refl (omega arith)
                (IsField-64 cred_max new.web_pass (omega arith) v.web_pass)
                (set_wpass current _ new.web_pass v.web_pass.fits) (loop_end _)))))

  loop_typed :
      (new : NetworkConfig)
      → IsValid new
      → form_loop current (encode_fields (typed new)) current ≡ some (read_back new)
  unfolding form_encode encode_byte
  loop_typed new v =
      field_then _ _ _ _ _ _ refl (omega arith) (dotted-IsField new.ip v.ip)
        (set_ip current _ new.ip v.ip)
        (field_then _ _ _ _ _ _ refl (omega arith)
          (decimal-IsField new.prefix_len (omega (arith, v.prefix_le)))
          (set_prefix current _ new.prefix_len v.prefix_pos v.prefix_le)
          (field_then _ _ _ _ _ _ refl (omega arith) (dotted-IsField new.gateway v.gateway)
            (set_gw current _ new.gateway v.gateway)
            (field_then _ _ _ _ _ _ refl (omega arith) (dotted-IsField new.broker_ip v.broker_ip)
              (set_broker current _ new.broker_ip v.broker_ip)
              (field_then _ _ _ _ _ _ refl (omega arith) (decimal-IsField new.broker_port v.port_lt)
                (set_port current _ new.broker_port v.port_pos v.port_lt) (loop_texts new v _)))))

  typed-PlainFields : (new : NetworkConfig) → IsValid new → PlainFields (typed new)
  typed-PlainFields new v = (
    (omega arith, sent (dotted new.ip) (dotted-IsField new.ip v.ip)),
    (
      (omega arith, sent _ (decimal-IsField new.prefix_len (omega (arith, v.prefix_le)))),
      (
        (omega arith, sent _ (dotted-IsField new.gateway v.gateway)),
        (
          (omega arith, sent _ (dotted-IsField new.broker_ip v.broker_ip)),
          (
            (omega arith, sent _ (decimal-IsField new.broker_port v.port_lt)),
            (
              (omega arith, sent new.client_id v.client_id),
              (
                (omega arith, sent new.mqtt_user v.mqtt_user),
                (
                  (omega arith, sent new.mqtt_pass v.mqtt_pass),
                  (
                    (omega arith, sent new.web_user v.web_user),
                    ((omega arith, sent new.web_pass v.web_pass), tt),
                  ),
                ),
              ),
            ),
          ),
        ),
      ),
    ),
  )
    where
      sent : {n : ℕ} (s : Bytes) → IsField n s → AreBytes s
      sent s f = valid_utf8-AreBytes s f.utf8

  -- A valid configuration that is typed into the form, and sent as a browser encodes it, is read by
  -- `parse_form` field for field; a password field that was left blank keeps the current password.
  pub parse_form-form_body :
      (new : NetworkConfig)
      → IsValid new
      → parse_form (form_body (typed new)) current ≡ some (read_back new)
  unfolding parse_form
  parse_form-form_body new v =
      rw (split_body (codes "ip", dotted new.ip) _ (typed-PlainFields new v)) (loop_typed new v)
