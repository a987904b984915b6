-- ===== src/LedDispatch/Commands.antt =====
-- Which messages are which commands, read off the commands.
use jzf407_rust.Prelude.{
  ◌≡◌, refl, ◌↔◌, inl, inr, Bool, Option, none, some, Bytes, bytes_eq, bytes_eq_iff, arith,
  Option-cases, subst, some_inj,
}
use jzf407_rust.Text.{codes}
use jzf407_rust.LedDispatch.{
  OutputCmd, led1, led2, all_leds, relay, ping, reboot, parse_bool, dispatch, dispatch_special,
}

-- The topic of a command that sets outputs.
abbrev pub output_topic : OutputCmd → Option Bytes
output_topic (led1 on) = some (codes "stm32/led/1")
output_topic (led2 on) = some (codes "stm32/led/2")
output_topic (all_leds on) = some (codes "stm32/led/all")
output_topic (relay on) = some (codes "stm32/relay")
output_topic _ = none

abbrev pub special_topic : OutputCmd → Option Bytes
special_topic ping = some (codes "stm32/ping")
special_topic reboot = some (codes "stm32/cmd/reboot")
special_topic _ = none

-- The level that a command asks for.
abbrev pub level : OutputCmd → Option Bool
level (led1 on) = some on
level (led2 on) = some on
level (all_leds on) = some on
level (relay on) = some on
level _ = none

module _ (topic payload : Bytes) (c : OutputCmd) where
  dispatch-topic :
      dispatch topic payload ≡ some c
      → (output_topic c ≡ some topic) × (parse_bool payload ≡ level c)
  unfolding dispatch
  dispatch-topic h = ground (
    arith,
    bytes_eq_iff topic (codes "stm32/led/1"),
    bytes_eq_iff topic (codes "stm32/led/2"),
    bytes_eq_iff topic (codes "stm32/led/all"),
    bytes_eq_iff topic (codes "stm32/relay"),
  )

dispatch_topic :
    (c : OutputCmd) (payload : Bytes) {topic : Bytes}
    → output_topic c ≡ some topic
    → parse_bool payload ≡ level c
    → dispatch topic payload ≡ some c
unfolding dispatch bytes_eq
dispatch_topic (led1 on) payload t p =
    subst (λ u. dispatch u payload ≡ some (led1 on)) (some_inj t) (rw p)
dispatch_topic (led2 on) payload t p =
    subst (λ u. dispatch u payload ≡ some (led2 on)) (some_inj t) (rw p)
dispatch_topic (all_leds on) payload t p =
    subst (λ u. dispatch u payload ≡ some (all_leds on)) (some_inj t) (rw p)
dispatch_topic (relay on) payload t p =
    subst (λ u. dispatch u payload ≡ some (relay on)) (some_inj t) (rw p)
dispatch_topic _ payload t p = cc

-- `dispatch` answers a command exactly when the message stands on the topic of that command and
-- its payload spells the level that the command asks for; it never answers `Ping`, `Reboot` or
-- `Unknown`, which have no such topic.
pub dispatch_iff :
    (topic payload : Bytes) (c : OutputCmd)
    → (dispatch topic payload ≡ some c)
      ↔ ((output_topic c ≡ some topic) × (parse_bool payload ≡ level c))
dispatch_iff topic payload c =
    (dispatch-topic topic payload c, λ h. dispatch_topic c payload h.0 h.1)

special-topic :
    (topic : Bytes) (c : OutputCmd) → dispatch_special topic ≡ some c → special_topic c ≡ some topic
unfolding dispatch_special
special-topic topic c h =
    ground (
      arith,
      bytes_eq_iff topic (codes "stm32/ping"),
      bytes_eq_iff topic (codes "stm32/cmd/reboot"),
    )

topic_special :
    (c : OutputCmd) {topic : Bytes} → special_topic c ≡ some topic → dispatch_special topic ≡ some c
unfolding dispatch_special bytes_eq
topic_special ping t = subst (λ u. dispatch_special u ≡ some ping) (some_inj t) refl
topic_special reboot t = subst (λ u. dispatch_special u ≡ some reboot) (some_inj t) refl
topic_special _ t = cc

pub dispatch_special_iff :
    (topic : Bytes) (c : OutputCmd)
    → (dispatch_special topic ≡ some c) ↔ (special_topic c ≡ some topic)
dispatch_special_iff topic c = (special-topic topic c, topic_special c)

topics_apart :
    (c d : OutputCmd) (topic : Bytes)
    → output_topic c ≡ some topic
    → special_topic d ≡ some topic
    → ⊥
topics_apart (led1 on) d topic h k = ground arith
topics_apart c d topic h k = ground arith

-- No message is both: a topic that sets outputs is never a topic of `Ping` or `Reboot`.
pub dispatch_disjoint :
    (topic payload : Bytes) (c : OutputCmd)
    → dispatch topic payload ≡ some c
    → dispatch_special topic ≡ none
dispatch_disjoint topic payload c h = elim (Option-cases (dispatch_special topic)) [
  | inl e ↦ e
  | inr (d, e) ↦
      absurd (topics_apart c d topic (dispatch-topic topic payload c h).0 (special-topic topic d e))
]
