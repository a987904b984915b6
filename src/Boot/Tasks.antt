-- ===== src/Boot/Tasks.antt =====
-- src/watchdog.rs, src/heartbeat.rs: the two tasks that show that the executor is alive.
use jzf407_rust.Prelude.{
  ℕ, zero, suc, ◌+◌, ◌<◌, ◌≡◌, refl, Bool, true, false, List, [], ◌∷◌, ltb, arith, if◌then◌else◌,
}

-- `IndependentWatchdog::new(iwdg, 20_000_000)`, in milliseconds.
abbrev pub watchdog_timeout : ℕ
watchdog_timeout = 20000

abbrev pub pet_interval : ℕ
pet_interval = 1500

-- The watchdog: the time at which it resets the board, and whether it has.
pub record Watchdog : Type 0 where
  pub bites_at : ℕ
  pub bitten : Bool

-- `unleash` at a time.
abbrev pub unleash : ℕ → Watchdog
unleash now = record { bites_at = now + watchdog_timeout; bitten = false }

-- One turn of the loop of `watchdog_task`, that runs at a time: too late if the timeout has passed.
unfoldable pub pet : ℕ → Watchdog → Watchdog
pet now w =
    if ltb now w.bites_at
    then record w { bites_at = now + watchdog_timeout }
    else record w { bitten = true }

-- The turns, when the timer of each one is served `late` milliseconds after it is due.
unfoldable pub watchdog_task : List ℕ → ℕ → Watchdog → Watchdog
unfolding pet
watchdog_task [] now w = w
watchdog_task (late ∷ rest) now w =
    watchdog_task rest (now + pet_interval + late) (pet (now + pet_interval + late) w)

-- Every turn is late by less than the room that the interval leaves.
abbrev pub InTime : List ℕ → Type 0
InTime [] = Unit
InTime (late ∷ rest) = (late < 18500) × InTime rest

stays_fed :
    (lates : List ℕ) (now : ℕ) (w : Watchdog)
    → InTime lates
    → w.bites_at ≡ now + watchdog_timeout
    → w.bitten ≡ false
    → (watchdog_task lates now w).bitten ≡ false
unfolding watchdog_task pet
stays_fed [] now w h e f = f
stays_fed (late ∷ rest) now w h e f =
    let soon : ltb (now + pet_interval + late) w.bites_at ≡ true = ground (arith, h.0) in
    stays_fed rest (now + pet_interval + late) (pet (now + pet_interval + late) w) h.1
      (rw soon refl) (rw soon f)

-- The watchdog never resets a board whose executor serves each of the task's timers less than 18.5 s
-- late, however many turns there are.
pub watchdog_stays_fed :
    (lates : List ℕ) (start : ℕ)
    → InTime lates
    → (watchdog_task lates start (unleash start)).bitten ≡ false
watchdog_stays_fed lates start h = stays_fed lates start (unleash start) h refl refl

-- The level of the pin of LED 3, which is lit when low, and the milliseconds until the next turn:
-- the two halves of the loop of `heartbeat_led_task`.
abbrev pub blink_lit : Bool × ℕ
blink_lit = (false, 100)

abbrev pub blink_dark : Bool × ℕ
blink_dark = (true, 5000)

unfoldable pub heartbeat_led_task : ℕ → List (Bool × ℕ)
heartbeat_led_task zero = []
heartbeat_led_task (suc turns) = blink_lit ∷ blink_dark ∷ heartbeat_led_task turns
