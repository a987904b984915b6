-- ===== src/Mqtt/Task/Tests.antt =====
-- The MQTT task through a connection.
use jzf407_rust.Prelude.{
  ℕ, ◌≡◌, refl, Bool, true, false, none, some, [], ◌∷◌, Bytes, length, leb, le→leb, arith,
}
use jzf407_rust.Text.Utf8.{IsField}
use jzf407_rust.Eeprom.Simulated.{simulated, blank}
use jzf407_rust.NetConfig.{default}
use jzf407_rust.NetConfig.Valid.{default-IsValid}
use jzf407_rust.FaultMarker.{power_on}
use jzf407_rust.Mqtt.{Device, timer, relay_changed, Selected, after_select, heartbeat}
use jzf407_rust.Mqtt.Connect.{build_connect_options, client_id, given, credentials_offered}
use jzf407_rust.Mqtt.Task.{looping, Task, Answer, step, spawned}
use jzf407_rust.Mqtt.Task.Online.{After, start, moved, online_tells}
use jzf407_rust.Mqtt.Task.Beats.{beat, Sends, sent_in, Lasts, heartbeat_due}

abbrev short : Bytes → Bool
short s = leb (length s) 32

takes_fields : (s : Bytes) → IsField 32 s → short s ≡ true
takes_fields s f = le→leb _ _ f.fits

credentials_offered_example :
    ((build_connect_options short short default).user_name ≡ given short short default.mqtt_user)
    × ((build_connect_options short short default).password ≡ given short short default.mqtt_pass)
    × (client_id short short default ≡ some default.client_id)
credentials_offered_example =
    credentials_offered short short default default-IsValid takes_fields takes_fields

abbrev device : Device simulated
device = record {
  outputs = record { held = false; pins = none };
  store = record { cell = record { held = false; chip = some (blank []) }; cache = none };
  trigger = none;
  relay_change = none;
  marker = 0;
}

abbrev every : Bytes → Bool
every t = true

-- All goes well, at a time.
abbrev well : Selected simulated → ℕ → Answer simulated
well selected now = record { accepted = true; accepts = every; selected = selected; now = now }

abbrev next : Answer simulated → Task simulated → Task simulated
next a t = (step simulated every power_on a t).task

abbrev connected : Task simulated
connected =
    next (well timer 3)
      (next (well timer 2) (next (well timer 1) (spawned simulated every power_on device)))

connected-After : After simulated every power_on true connected
unfolding step
connected-After = moved (well timer 3) (moved (well timer 2) (moved (well timer 1) (start device)))

online_tells_example : connected.online ≡ true
online_tells_example = online_tells simulated every power_on connected-After

-- In the loop, with the next heartbeat due at 10 s.
abbrev running : Task simulated
running = record { place = looping 10000; online = true; device = device }

lasts : Lasts simulated every power_on (well timer 4000 ∷ []) running
unfolding step after_select heartbeat
lasts = (tt, tt)

heartbeat_due_example : Sends beat (
    sent_in simulated every power_on
      (well timer 4000 ∷ well (relay_changed false) 10500 ∷ [])
      running)
heartbeat_due_example =
    heartbeat_due simulated every power_on (well timer 4000 ∷ []) (well (relay_changed false) 10500)
      running 10000 refl (omega arith) lasts
