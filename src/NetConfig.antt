-- ===== src/NetConfig.antt =====
-- logic/src/config.rs: the network configuration, its 175-byte image, and the two form parsers.
-- A byte array is the list of its bytes; `[u8; 4]` is a record of four of them.
pub mod Valid
pub mod Layout
pub mod RoundTrip
pub mod Image
pub mod Accepts
pub mod Sound
pub mod Address
mod Tests
use jzf407_rust.Prelude.{
  ℕ, zero, suc, ◌-◌, ◌*◌, ◌/◌, ◌%◌, ◌^◌, min, bit_or, Bool, not, ◌&&◌, Option, none, some, List, [],
  ◌∷◌, Bytes, length, take, replicate, slice, copy_at, get_or, bytes_eq, leb, ltb, ◌==◌,
  if◌then◌else◌, ◌>>=◌, ◌>>◌, guard, unwrap_or,
}
use jzf407_rust.Text.{codes}
use jzf407_rust.Text.Utf8.{from_utf8, trim}
use jzf407_rust.Text.Split.{split}
use jzf407_rust.Text.Decimal.{parse_uint}

pub record Ipv4 : Type 0 where
  pub a : ℕ
  pub b : ℕ
  pub c : ℕ
  pub d : ℕ

abbrev pub octets : Ipv4 → Bytes
octets ip = ip.a ∷ ip.b ∷ ip.c ∷ ip.d ∷ []

abbrev pub default_ip : Ipv4
default_ip = record { a = 192; b = 168; c = 137; d = 2 }

abbrev pub default_gw : Ipv4
default_gw = record { a = 192; b = 168; c = 137; d = 1 }

abbrev pub default_broker : Ipv4
default_broker = record { a = 192; b = 168; c = 137; d = 1 }

abbrev pub magic : Bytes
magic = 0xc0 ∷ 0x4f ∷ 0x19 ∷ 0x1e ∷ []

abbrev pub len : ℕ
len = 175

abbrev pub cred_max : ℕ
cred_max = 32

pub record NetworkConfig : Type 0 where
  pub ip : Ipv4
  pub prefix_len : ℕ
  pub gateway : Ipv4
  pub broker_ip : Ipv4
  pub broker_port : ℕ
  pub client_id : Bytes
  pub mqtt_user : Bytes
  pub mqtt_pass : Bytes
  pub web_user : Bytes
  pub web_pass : Bytes

-- `heapless::String::<n>::try_from(s).ok()`
abbrev pub fit : ℕ → Bytes → Option Bytes
fit n s = if leb (length s) n then some s else none

unfoldable pub default : NetworkConfig
default = record {
  ip = default_ip;
  prefix_len = 24;
  gateway = default_gw;
  broker_ip = default_broker;
  broker_port = 1883;
  client_id = unwrap_or (fit 24 (codes "stm32-jzf407")) [];
  mqtt_user = [];
  mqtt_pass = [];
  web_user = [];
  web_pass = [];
}

-- `iter().position(|&c| c == 0)`
pub position : Bytes → Option ℕ
position [] = none
position (b ∷ rest) =
    let later = position rest in if b == 0 then some 0 else (later >>= λ i. some (suc i))

-- The bytes of a slot up to its first NUL.
abbrev until_nul : ℕ → Bytes → Bytes
until_nul whole slot = take (unwrap_or (position slot) whole) slot

pub read_str : ℕ → Bytes → Bytes
unfolding position
read_str n slot = unwrap_or (from_utf8 (until_nul (length slot) slot) >>= fit n) []

-- `write_str(&mut b[off..off + room], s)`
write_str : Bytes → ℕ → ℕ → Bytes → Bytes
write_str b off room s = copy_at b off (take (min (length s) room) s)

-- Each line of `to_bytes` writes over the buffer of the line before.
unfoldable pub to_bytes : NetworkConfig → Bytes
unfolding write_str
to_bytes cfg =
    let b₀ = copy_at (replicate len 0) 0 magic in
    let b₁ = copy_at b₀ 4 (octets cfg.ip) in
    let b₂ = copy_at b₁ 8 (cfg.prefix_len ∷ []) in
    let b₃ = copy_at b₂ 12 (octets cfg.gateway) in
    let b₄ = copy_at b₃ 16 (octets cfg.broker_ip) in
    let b₅ = copy_at b₄ 20 (cfg.broker_port / 2 ^ 8 % 2 ^ 8 ∷ []) in
    let b₆ = copy_at b₅ 21 (cfg.broker_port % 2 ^ 8 ∷ []) in
    let b₇ = copy_at b₆ 23 (take (min (length cfg.client_id) 24) cfg.client_id) in
    let b₈ = write_str b₇ 47 32 cfg.mqtt_user in
    let b₉ = write_str b₈ 79 32 cfg.mqtt_pass in
    let b₁₀ = write_str b₉ 111 32 cfg.web_user in write_str b₁₀ 143 32 cfg.web_pass

abbrev byte : Bytes → ℕ → ℕ
byte b i = get_or b i 0

abbrev address : Bytes → ℕ → Ipv4
address b i = record {
  a = byte b i;
  b = byte b (suc i);
  c = byte b (suc (suc i));
  d = byte b (suc (suc (suc i)));
}

-- `((b[20] as u16) << 8) | (b[21] as u16)`
abbrev port_at : Bytes → ℕ
port_at b = bit_or (byte b 20 * 2 ^ 8 % 2 ^ 16) (byte b 21)

unfoldable pub from_bytes : Bytes → Option NetworkConfig
unfolding position read_str
from_bytes b = do
  guard (not (ltb (length b) len))
  guard (bytes_eq (slice b 0 4) magic)
  guard (leb 1 (byte b 8) && leb (byte b 8) 32)
  guard (not (port_at b == 0))
  id ← from_utf8 (until_nul 24 (slice b 23 47))
  client ← fit 24 id
  some (record {
    ip = address b 4;
    prefix_len = byte b 8;
    gateway = address b 12;
    broker_ip = address b 16;
    broker_port = port_at b;
    client_id = client;
    mqtt_user = read_str cred_max (slice b 47 79);
    mqtt_pass = read_str cred_max (slice b 79 111);
    web_user = read_str cred_max (slice b 111 143);
    web_pass = read_str cred_max (slice b 143 175);
  })

-- `parts.next()?.parse::<u8>().ok()?`, with the parts that are left.
next_octet : List Bytes → Option (ℕ × List Bytes)
next_octet [] = none
next_octet (p ∷ ps) = do v ← parse_uint 255 p; some (v, ps)

no_more : List Bytes → Option (Unit {0})
no_more [] = some tt
no_more (p ∷ ps) = none

unfoldable pub parse_ipv4 : Bytes → Option Ipv4
unfolding next_octet no_more
parse_ipv4 s = do
  (o₀, p₀) ← next_octet (split b'.' s)
  (o₁, p₁) ← next_octet p₀
  (o₂, p₂) ← next_octet p₁
  (o₃, p₃) ← next_octet p₂
  no_more p₃
  some (record { a = o₀; b = o₁; c = o₂; d = o₃ })

unfoldable pub parse_port : Bytes → Option ℕ
parse_port s = do p ← parse_uint 65535 (trim s); guard (not (p == 0)); some p
