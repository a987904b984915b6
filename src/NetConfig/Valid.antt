-- ===== src/NetConfig/Valid.antt =====
-- The configurations that the program may hold: the machine types, the ranges that `from_bytes`
-- and the form check, and texts that their fields can hold.
use jzf407_rust.Prelude.{◌≤◌, ◌<◌, refl, arith, contains}
use jzf407_rust.Text.Utf8.{IsField, nil_IsField, valid_utf8}
use jzf407_rust.NetConfig.{Ipv4, NetworkConfig, cred_max, default}

pub record IsAddress (ip : Ipv4) : Type 0 where
  pub a_lt : ip.a < 256
  pub b_lt : ip.b < 256
  pub c_lt : ip.c < 256
  pub d_lt : ip.d < 256

pub record IsValid (cfg : NetworkConfig) : Type 0 where
  pub ip : IsAddress cfg.ip
  pub gateway : IsAddress cfg.gateway
  pub broker_ip : IsAddress cfg.broker_ip
  pub prefix_pos : 1 ≤ cfg.prefix_len
  pub prefix_le : cfg.prefix_len ≤ 32
  pub port_pos : 1 ≤ cfg.broker_port
  pub port_lt : cfg.broker_port < 65536
  pub client_id : IsField 24 cfg.client_id
  pub mqtt_user : IsField cred_max cfg.mqtt_user
  pub mqtt_pass : IsField cred_max cfg.mqtt_pass
  pub web_user : IsField cred_max cfg.web_user
  pub web_pass : IsField cred_max cfg.web_pass

-- The defaults are a valid configuration.
pub default-IsValid : IsValid default
unfolding default valid_utf8 contains
default-IsValid = record {
  ip = omega arith;
  gateway = omega arith;
  broker_ip = omega arith;
  prefix_pos = omega arith;
  prefix_le = omega arith;
  port_pos = omega arith;
  port_lt = omega arith;
  client_id = record { fits = omega arith; no_nul = refl; utf8 = refl };
  mqtt_user = nil_IsField cred_max;
  mqtt_pass = nil_IsField cred_max;
  web_user = nil_IsField cred_max;
  web_pass = nil_IsField cred_max;
}
