-- ===== src/NetConfig/Tests.antt =====
-- Images of configurations, and the theorems at the default configuration.
use jzf407_rust.Prelude.{◌≡◌, ◌↔◌, some, Bytes, replicate}
use jzf407_rust.NetConfig.{default, to_bytes, from_bytes}
use jzf407_rust.NetConfig.Valid.{default-IsValid}
use jzf407_rust.NetConfig.RoundTrip.{Passes, reading}
use jzf407_rust.NetConfig.Image.{from_bytes-to_bytes}
use jzf407_rust.NetConfig.Accepts.{from_bytes_iff}

from_bytes-to_bytes_example : from_bytes (to_bytes default) ≡ some default
from_bytes-to_bytes_example = from_bytes-to_bytes default default-IsValid

abbrev blank : Bytes
blank = replicate 175 0xff

from_bytes_iff_example :
    (from_bytes blank ≡ some default)
    ↔ ((id : Bytes) × Passes blank id × (default ≡ reading blank id))
from_bytes_iff_example = from_bytes_iff blank default
