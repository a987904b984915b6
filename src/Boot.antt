-- ===== src/Boot.antt =====
-- src/main.rs: from reset to the running tasks. The clock tree, the peripherals' set-up and the log
-- are left out: nothing else reads them.
pub mod Recovery
pub mod Tasks
pub mod Lights
pub mod Safe
pub mod Reboot
mod Tests
use jzf407_rust.Prelude.{
  ℕ, zero, suc, ◌+◌, ◌*◌, ◌^◌, Bool, true, false, Option, none, some, List, [], ◌∷◌, Bytes, leb,
  if◌then◌else◌,
}
use jzf407_rust.Eeprom.{Bus, Cell, init_global}
use jzf407_rust.NetConfig.{Ipv4, NetworkConfig}
use jzf407_rust.ConfigStore.{load_config}
use jzf407_rust.Persistence.{OutputState, Store, load_state}
use jzf407_rust.Outputs.{led1, led2, OutputPins, SharedOutputs, new, register, set}
use jzf407_rust.FaultMarker.{ResetCause, ResetReason, read_and_clear}
use jzf407_rust.Web.{Run, panic, value, ◌>>=◌}

-- `Ipv4Cidr`, whose `new` panics on a prefix length above 32.
pub record Ipv4Cidr : Type 0 where
  pub address : Ipv4
  pub prefix_len : ℕ

abbrev pub cidr_new : Ipv4 → ℕ → Run Ipv4Cidr
cidr_new ip prefix =
    if leb prefix 32 then value (record { address = ip; prefix_len = prefix }) else panic

-- `StaticConfigV4`, without DNS servers.
pub record StaticConfig : Type 0 where
  pub cidr : Ipv4Cidr
  pub gateway : Option Ipv4

-- The tasks, in the order in which they are spawned.
pub data Spawned : Type 0 where
  heartbeat_led_task watchdog_task relay_task net_task : Spawned
  mqtt_task web_task web_task_b : NetworkConfig → ResetReason → Spawned

-- What the board comes up with: why it was reset, its EEPROM, and the bytes of its unique id.
pub record Board (bus : Bus) : Type 0 where
  pub cause : ResetCause
  pub chip : bus.Dev
  pub uid : ℕ → ℕ

pub record Booted (bus : Bus) : Type 0 where
  pub cause : ResetCause
  pub store : Store bus
  pub outputs : SharedOutputs
  pub mac_addr : Bytes
  pub net : StaticConfig
  pub seed : ℕ
  pub tasks : List Spawned

-- The levels that the pins get when they are made outputs.
abbrev pub boot_pins : OutputPins
boot_pins = record { led1_pin = true; led2_pin = true; relay_pin = false }

abbrev pub lit : OutputState → SharedOutputs
lit saved = set led2 saved.led2 (set led1 saved.led1 (register new boot_pins))

abbrev from_le_bytes : (ℕ → ℕ) → ℕ → ℕ → ℕ
from_le_bytes u i zero = 0
from_le_bytes u i (suc n) = u i + 2 ^ 8 * from_le_bytes u (suc i) n

abbrev mac_of : (ℕ → ℕ) → Bytes
mac_of uid = 0x02 ∷ uid 0 ∷ uid 1 ∷ uid 2 ∷ uid 3 ∷ uid 4 ∷ []

abbrev tasks_for : NetworkConfig → ResetReason → List Spawned
tasks_for cfg reason =
    heartbeat_led_task
    ∷ watchdog_task
    ∷ relay_task
    ∷ net_task
    ∷ mqtt_task cfg reason
    ∷ web_task cfg reason
    ∷ web_task_b cfg reason
    ∷ []

-- The network configuration that `main` hands over, once `Ipv4Cidr::new` took the prefix length.
abbrev pub static_of : NetworkConfig → StaticConfig
static_of cfg = record {
  cidr = record { address = cfg.ip; prefix_len = cfg.prefix_len };
  gateway = some cfg.gateway;
}

-- `try_lock().unwrap()`
abbrev pub unwrap_lock {ℓ} : {A : Type ℓ} → Bool → A → Run A
unwrap_lock held x = if held then panic else value x

-- The statics that `main` locks, `EEPROM` and `STATE_CACHE`.
pub record Statics (bus : Bus) : Type 0 where
  pub eeprom : Cell bus
  pub cache_held : Bool

-- `Mutex::new(None)`, both.
abbrev pub at_reset : (bus : Bus) → Statics bus
at_reset bus = record { eeprom = record { held = false; chip = none }; cache_held = false }

module _ (bus : Bus) where
  -- The two loads, in this order, from the EEPROM that `init_global` registers.
  abbrev pub first_load : bus.Dev → Cell bus × NetworkConfig
  first_load d = load_config bus (init_global bus d)

  abbrev pub second_load : bus.Dev → Store bus × OutputState
  second_load d = load_state bus (record { cell = (first_load d).0; cache = none })

  -- `takes` says which configurations `embassy_net::new` takes; it panics on the others.
  unfoldable pub main : (StaticConfig → Bool) → Statics bus → Board bus → Run (Booted bus)
  main takes statics b =
      let woken = read_and_clear b.cause in
      unwrap_lock statics.eeprom.held (init_global bus b.chip) >>= λ cell.
      let (read_cell, cfg) = load_config bus cell in
      unwrap_lock statics.cache_held (load_state bus (record { cell = read_cell; cache = none }))
      >>= λ loaded. cidr_new cfg.ip cfg.prefix_len >>= λ cidr.
          let net : StaticConfig = record { cidr = cidr; gateway = some cfg.gateway } in
          if takes net
          then value (record {
            cause = woken.0;
            store = loaded.0;
            outputs = lit loaded.1;
            mac_addr = mac_of b.uid;
            net = net;
            seed = from_le_bytes b.uid 0 8;
            tasks = tasks_for cfg woken.1;
          })
          else panic
