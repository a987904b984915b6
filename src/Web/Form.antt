-- ===== src/Web/Form.antt =====
-- src/web.rs: the two forms, `/save` and `/login`.
pub mod Values
pub mod Fields
pub mod Submitted
pub mod Setting
pub mod RoundTrip
pub mod Kept
use jzf407_rust.Prelude.{
  ℕ, Bool, not, ◌&&◌, Option, none, some, List, [], ◌∷◌, Bytes, bytes_eq, leb, if◌then◌else◌, ◌>>=◌,
  ◌>>◌, guard,
}
use jzf407_rust.Text.{codes}
use jzf407_rust.Text.Utf8.{trim}
use jzf407_rust.Text.Split.{split, key_value}
use jzf407_rust.Text.Decimal.{parse_uint}
use jzf407_rust.WebForm.{to_option, form_url_decode, secret_from_form}
use jzf407_rust.NetConfig.{NetworkConfig, cred_max, fit, parse_ipv4, parse_port}

-- The `match key` of `parse_form`, for one decoded value.
unfoldable pub set_field : NetworkConfig → Bytes → Bytes → NetworkConfig → Option NetworkConfig
set_field current key val cfg =
    if bytes_eq key (codes "ip")
    then (do v ← parse_ipv4 val; some (record cfg { ip = v }))
    else (if bytes_eq key (codes "prefix")
        then (do
          p ← parse_uint 255 val
          guard (leb 1 p && leb p 32)
          some (record cfg { prefix_len = p }))
        else (if bytes_eq key (codes "gw")
            then (do v ← parse_ipv4 val; some (record cfg { gateway = v }))
            else (if bytes_eq key (codes "broker")
                then (do v ← parse_ipv4 val; some (record cfg { broker_ip = v }))
                else (if bytes_eq key (codes "port")
                    then (do p ← parse_port val; some (record cfg { broker_port = p }))
                    else (if bytes_eq key (codes "id")
                        then (do v ← fit 24 val; some (record cfg { client_id = v }))
                        else (if bytes_eq key (codes "muser")
                            then (do v ← fit cred_max val; some (record cfg { mqtt_user = v }))
                            else (if bytes_eq key (codes "mpass")
                                then (do
                                  v ← to_option (secret_from_form cred_max current.mqtt_pass val)
                                  some (record cfg { mqtt_pass = v }))
                                else (if bytes_eq key (codes "wuser")
                                    then (do
                                      v ← fit cred_max val
                                      some (record cfg { web_user = v }))
                                    else (if bytes_eq key (codes "wpass")
                                        then (do
                                          v ←
                                              to_option
                                                (secret_from_form cred_max current.web_pass val)
                                          some (record cfg { web_pass = v }))
                                        else some cfg)))))))))

-- One turn of the loop of `parse_form`.
unfoldable pub form_step : NetworkConfig → Bytes → NetworkConfig → Option NetworkConfig
form_step current pair cfg = do
  val ← to_option (form_url_decode 64 (trim (key_value b'=' pair).1))
  set_field current (trim (key_value b'=' pair).0) val cfg

unfoldable pub form_loop : NetworkConfig → List Bytes → NetworkConfig → Option NetworkConfig
form_loop current [] cfg = some cfg
form_loop current (pair ∷ pairs) cfg = do
  next ← form_step current pair cfg
  form_loop current pairs next

unfoldable pub parse_form : Bytes → NetworkConfig → Option NetworkConfig
parse_form body current = form_loop current (split b'&' body) current

-- The loop of `parse_login_form`: a later pair with the same key replaces the earlier one, also
-- when its value is refused.
unfoldable pub login_loop : List Bytes → Option Bytes × Option Bytes → Option Bytes × Option Bytes
login_loop [] found = found
login_loop (pair ∷ pairs) found =
    let (key, val) = key_value b'=' pair in
    login_loop pairs (
      if bytes_eq key (codes "user")
      then (to_option (form_url_decode 64 val), found.1)
      else (if bytes_eq key (codes "pass")
          then (found.0, to_option (form_url_decode 64 val))
          else found))

unfoldable pub parse_login_form : Bytes → Option Bytes × Option Bytes
parse_login_form body = login_loop (split b'&' body) (none, none)
