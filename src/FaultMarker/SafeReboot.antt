-- ===== src/FaultMarker/SafeReboot.antt =====
-- src/fault_marker.rs: `safe_reboot`, as its effects on the core and the Ethernet peripheral.
use jzf407_rust.Prelude.{◌≡◌, refl, Bool, true, false, List, [], ◌∷◌}

-- The writes that `safe_reboot` makes, in order.
pub data Write : Type 0 where
  disable dsb sys_reset : Write
  set_ethrst : Bool → Write

abbrev pub safe_reboot : List Write
safe_reboot = disable ∷ set_ethrst true ∷ set_ethrst false ∷ dsb ∷ sys_reset ∷ []

-- Whether interrupts are enabled, whether the Ethernet DMA runs, and whether the core has been reset;
-- a core that has been reset with the DMA running takes an interrupt that has no handler yet.
pub record Core : Type 0 where
  pub interrupts : Bool
  pub eth_dma : Bool
  pub was_reset : Bool
  pub stray_interrupt : Bool

-- What the hardware does on a write: `ethrst` stops the DMA, `sys_reset` does not.
unfoldable pub effect : Write → Core → Core
effect disable c = record c { interrupts = false }
effect dsb c = c
effect (set_ethrst true) c = record c { eth_dma = false }
effect (set_ethrst false) c = c
effect sys_reset c = record c { was_reset = true; stray_interrupt = c.eth_dma }

unfoldable pub run : List Write → Core → Core
unfolding effect
run [] c = c
run (w ∷ ws) c = run ws (effect w c)

-- Whatever state the core is in, `safe_reboot` resets it, with the Ethernet DMA stopped: no interrupt
-- of it is waiting when the program starts again.
pub safe_reboot_is_quiet :
    (c : Core)
    → ((run safe_reboot c).was_reset ≡ true) × ((run safe_reboot c).stray_interrupt ≡ false)
unfolding run effect
safe_reboot_is_quiet c = (refl, refl)
