-- ===== src/Mqtt/Topics.antt =====
-- What is dispatched is what is subscribed to.
use jzf407_rust.Prelude.{
  ◌≡◌, ◌⊎◌, inl, inr, refl, sym, subst, Bool, true, some, some_inj, List, [], ◌∷◌, Bytes, All,
  Bool-cases,
}
use jzf407_rust.LedDispatch.{
  OutputCmd, led1, led2, all_leds, relay, ping, reboot, unknown, dispatch, dispatch_special,
}
use jzf407_rust.LedDispatch.Commands.{
  output_topic, special_topic, dispatch_iff, dispatch_special_iff,
}
use jzf407_rust.Mqtt.{subscribe_topics, subscribe_loop, subscribe_all}

-- The topic is in the list.
abbrev pub Among : Bytes → List Bytes → Type 0
Among t [] = ⊥
Among t (u ∷ us) = (t ≡ u) ⊎ Among t us

output_topic-Among :
    (c : OutputCmd) (t : Bytes) → output_topic c ≡ some t → Among t subscribe_topics
output_topic-Among (led1 on) t e = inl (sym (some_inj e))
output_topic-Among (led2 on) t e = inr (inl (sym (some_inj e)))
output_topic-Among (all_leds on) t e = inr (inr (inl (sym (some_inj e))))
output_topic-Among (relay on) t e = inr (inr (inr (inl (sym (some_inj e)))))
output_topic-Among ping t e = cc
output_topic-Among reboot t e = cc
output_topic-Among unknown t e = cc

special_topic-Among :
    (c : OutputCmd) (t : Bytes) → special_topic c ≡ some t → Among t subscribe_topics
special_topic-Among ping t e = inr (inr (inr (inr (inl (sym (some_inj e))))))
special_topic-Among reboot t e = inr (inr (inr (inr (inr (inl (sym (some_inj e)))))))
special_topic-Among (led1 on) t e = cc
special_topic-Among (led2 on) t e = cc
special_topic-Among (all_leds on) t e = cc
special_topic-Among (relay on) t e = cc
special_topic-Among unknown t e = cc

module _ (is_filter accepts : Bytes → Bool) where
  requested :
      (ts : List Bytes)
      → All (λ t. is_filter t ≡ true) ts
      → (subscribe_loop is_filter accepts ts).1 ≡ true
      → ((subscribe_loop is_filter accepts ts).0 ≡ ts) × All (λ t. accepts t ≡ true) ts
  unfolding subscribe_loop
  requested [] f e = (refl, tt)
  requested (t ∷ ts) f e = elim (Bool-cases (accepts t)) [
    | inl h ↦
        let (rest, all) = requested ts f.1 (rw (f.0, h) at e) in (rw (f.0, h, rest) refl, (h, all))
    | inr h ↦ cc (rw (f.0, h) at e)
  ]

  -- When `subscribe_all` reports success, each of its topics was requested and accepted; and every
  -- message that is a command stands on one of them, so no command is missed. (The six topics are
  -- filters for the client.)
  pub commands_subscribed :
      (topic payload : Bytes) (c : OutputCmd)
      → All (λ t. is_filter t ≡ true) subscribe_topics
      → (subscribe_all is_filter accepts).1 ≡ true
      → (dispatch topic payload ≡ some c) ⊎ (dispatch_special topic ≡ some c)
      → ((subscribe_all is_filter accepts).0 ≡ subscribe_topics)
        × All (λ t. accepts t ≡ true) subscribe_topics
        × Among topic (subscribe_all is_filter accepts).0
  unfolding subscribe_all
  commands_subscribed topic payload c f e h =
      let (same, all) = requested subscribe_topics f e in
      (
        same,
        all,
        subst (Among topic) (sym same) (elim h [
          | inl k ↦ output_topic-Among c topic ((dispatch_iff topic payload c).0 k).0
          | inr k ↦ special_topic-Among c topic ((dispatch_special_iff topic c).0 k)
        ]),
      )
