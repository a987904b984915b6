-- ===== src/Mqtt/Connect.antt =====
-- src/mqtt.rs: `build_connect_options` and the client id. Which texts the client's `MqttString` and
-- `MqttBinary` take is a parameter; for them a text of a field is short and has no NUL.
use jzf407_rust.Prelude.{
  ℕ, ◌≡◌, refl, Bool, true, false, Option, none, some, [], ◌∷◌, Bytes, contains, ◌==◌,
  if◌then◌else◌, arith, unwrap_or, Bool-cases, inl, inr,
}
use jzf407_rust.Text.{codes}
use jzf407_rust.Text.Utf8.{from_utf8, IsField}
use jzf407_rust.NetConfig.{NetworkConfig}
use jzf407_rust.NetConfig.Valid.{IsValid}
use jzf407_rust.Mqtt.{Publication}

abbrev pub topic_status : Bytes
topic_status = codes "stm32/status"

abbrev pub topic_diag : Bytes
topic_diag = codes "stm32/diag"

pub record ConnectOptions : Type 0 where
  pub clean_start : Bool
  pub keep_alive : ℕ
  pub will : Publication
  pub user_name : Option Bytes
  pub password : Option Bytes

module _ (takes_string takes_binary : Bytes → Bool) where
  -- `if !cfg.mqtt_user.is_empty()`, and only if the client takes the text.
  abbrev with_user : Bytes → ConnectOptions → ConnectOptions
  with_user [] o = o
  with_user (b ∷ s) o = if takes_string (b ∷ s) then record o { user_name = some (b ∷ s) } else o

  abbrev with_password : Bytes → ConnectOptions → ConnectOptions
  with_password [] o = o
  with_password (b ∷ s) o = if takes_binary (b ∷ s) then record o { password = some (b ∷ s) } else o

  unfoldable pub build_connect_options : NetworkConfig → ConnectOptions
  build_connect_options cfg = with_password cfg.mqtt_pass (
      with_user cfg.mqtt_user (record {
        clean_start = true;
        keep_alive = 120;
        will = record { topic = topic_status; payload = codes "offline"; retained = true };
        user_name = none;
        password = none;
      }))

  -- `s.trim_end_matches('\0')`
  trim_end_nul : Bytes → Bytes
  trim_end_nul [] = []
  trim_end_nul (b ∷ s) = keep_front b (trim_end_nul s)
    where
      keep_front : ℕ → Bytes → Bytes
      keep_front c [] = if c == 0 then [] else c ∷ []
      keep_front c (d ∷ rest) = c ∷ d ∷ rest

  -- `MqttString::from_str(..).ok()` of the client id; without one the broker would choose.
  unfoldable pub client_id : NetworkConfig → Option Bytes
  unfolding trim_end_nul
  client_id cfg =
      let s = trim_end_nul (unwrap_or (from_utf8 cfg.client_id) (codes "stm32-jzf407")) in
      if takes_string s then some s else none

  trim_end_nul-no_nul : (s : Bytes) → contains 0 s ≡ false → trim_end_nul s ≡ s
  unfolding trim_end_nul contains
  trim_end_nul-no_nul [] h = refl
  trim_end_nul-no_nul (b ∷ []) h = ground arith
  trim_end_nul-no_nul (b ∷ c ∷ s) h = rw (trim_end_nul-no_nul (c ∷ s) (ground arith))

  -- The text that is given, if there is one.
  abbrev pub given : Bytes → Option Bytes
  given [] = none
  given (b ∷ s) = some (b ∷ s)

  user_then :
      (user pass : Bytes) (o : ConnectOptions)
      → takes_string user ≡ true
      → o.user_name ≡ none
      → (with_password pass (with_user user o)).user_name ≡ given user
  user_then [] [] o h e = e
  user_then [] (c ∷ pass) o h e = elim (Bool-cases (takes_binary (c ∷ pass))) [
    | inl k ↦ rw k e
    | inr k ↦ rw k e
  ]
  user_then (b ∷ user) [] o h e = rw h
  user_then (b ∷ user) (c ∷ pass) o h e = elim (Bool-cases (takes_binary (c ∷ pass))) [
    | inl k ↦ rw (k, h) refl
    | inr k ↦ rw (k, h) refl
  ]

  user_keeps : (user : Bytes) (o : ConnectOptions) → (with_user user o).password ≡ o.password
  user_keeps [] o = refl
  user_keeps (b ∷ s) o = elim (Bool-cases (takes_string (b ∷ s))) [
    | inl k ↦ rw k refl
    | inr k ↦ rw k refl
  ]

  password_then :
      (pass : Bytes) (o : ConnectOptions)
      → takes_binary pass ≡ true
      → o.password ≡ none
      → (with_password pass o).password ≡ given pass
  password_then [] o h e = e
  password_then (c ∷ pass) o h e = rw h

  -- With a valid configuration the broker is offered exactly its user name and its password, each only
  -- when it is not empty, and exactly its client id: none is dropped or changed on the way. (The
  -- client takes texts of at most 32 bytes that are valid UTF-8 and have no NUL.)
  pub credentials_offered :
      (cfg : NetworkConfig)
      → IsValid cfg
      → ((s : Bytes) → IsField 32 s → takes_string s ≡ true)
      → ((s : Bytes) → IsField 32 s → takes_binary s ≡ true)
      → ((build_connect_options cfg).user_name ≡ given cfg.mqtt_user)
        × ((build_connect_options cfg).password ≡ given cfg.mqtt_pass)
        × (client_id cfg ≡ some cfg.client_id)
  unfolding build_connect_options client_id
  credentials_offered cfg v strings binaries = (
    user_then cfg.mqtt_user cfg.mqtt_pass _ (strings cfg.mqtt_user v.mqtt_user) refl,
    password_then cfg.mqtt_pass _ (binaries cfg.mqtt_pass v.mqtt_pass) (user_keeps cfg.mqtt_user _),
    rw (
      v.client_id.utf8,
      trim_end_nul-no_nul cfg.client_id v.client_id.no_nul,
      strings cfg.client_id (wider v.client_id),
    ),
  )
    where
      wider : {s : Bytes} → IsField 24 s → IsField 32 s
      wider f = record { fits = omega (arith, f.fits); no_nul = f.no_nul; utf8 = f.utf8 }
