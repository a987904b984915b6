-- ===== src/NetConfig/Image.antt =====
-- Reading the fields of an image that `to_bytes` has laid out, and the round trip.
use jzf407_rust.Prelude.{
  ℕ, ◌+◌, ◌*◌, ◌/◌, ◌%◌, ◌^◌, ◌<◌, ◌≡◌, refl, ap, ◌∙◌, bit_or, bit_or_256, some, [], ◌++◌, Bytes,
  length, length-append, drop, take-append_length, slice, padded, length-padded, take, arith,
}
use jzf407_rust.Text.Utf8.{from_utf8, IsField}
use jzf407_rust.NetConfig.{NetworkConfig, to_bytes, from_bytes, until_nul, read_str}
use jzf407_rust.NetConfig.Valid.{IsValid}
use jzf407_rust.NetConfig.Layout.{head, fields, layout}
use jzf407_rust.NetConfig.RoundTrip.{
  Passes, reading, Passes-reading, drop-append_add, from_utf8-field, read_str-padded,
}

port_bytes : (p : ℕ) → p < 65536 → bit_or (p / 2 ^ 8 % 2 ^ 8 * 2 ^ 8 % 2 ^ 16) (p % 2 ^ 8) ≡ p
port_bytes p h =
    let high : p / 2 ^ 8 % 2 ^ 8 * 2 ^ 8 % 2 ^ 16 ≡ p / 256 * 256 = omega arith in
    ap (λ (t : ℕ). bit_or t (p % 256)) high
    ∙ bit_or_256 (p / 256) (p % 256) (omega arith) (omega arith)
    ∙ omega arith

module _ (cfg : NetworkConfig) (v : IsValid cfg) where
  image : Bytes
  image = head cfg ++ fields cfg

  length-fields : length (fields cfg) ≡ 152
  length-fields = omega (arith, length-append {0}, length-padded)

  rest₄ : Bytes
  rest₄ = padded 32 cfg.web_pass ++ []

  rest₃ : Bytes
  unfolding rest₄
  rest₃ = padded 32 cfg.web_user ++ rest₄

  rest₂ : Bytes
  unfolding rest₃
  rest₂ = padded 32 cfg.mqtt_pass ++ rest₃

  rest₁ : Bytes
  unfolding rest₂
  rest₁ = padded 32 cfg.mqtt_user ++ rest₂

  slice_id : slice image 23 47 ≡ padded 24 cfg.client_id
  unfolding image rest₁
  slice_id = take-append_length 24 (padded 24 cfg.client_id) rest₁ (length-padded 24 _)

  after_id : (k : ℕ) → drop (24 + k) (fields cfg) ≡ drop k rest₁
  unfolding rest₁
  after_id k = drop-append_add 24 k (padded 24 cfg.client_id) rest₁ (length-padded 24 _)

  slice_muser : slice image 47 79 ≡ padded 32 cfg.mqtt_user
  unfolding image rest₁
  slice_muser =
      ap (take 32) (after_id 0)
      ∙ take-append_length 32 (padded 32 cfg.mqtt_user) rest₂ (length-padded 32 _)

  after_muser : (k : ℕ) → drop (32 + k) rest₁ ≡ drop k rest₂
  unfolding rest₁
  after_muser k = drop-append_add 32 k (padded 32 cfg.mqtt_user) rest₂ (length-padded 32 _)

  slice_mpass : slice image 79 111 ≡ padded 32 cfg.mqtt_pass
  unfolding image rest₂
  slice_mpass =
      ap (take 32) (after_id 32 ∙ after_muser 0)
      ∙ take-append_length 32 (padded 32 cfg.mqtt_pass) rest₃ (length-padded 32 _)

  after_mpass : (k : ℕ) → drop (32 + k) rest₂ ≡ drop k rest₃
  unfolding rest₂
  after_mpass k = drop-append_add 32 k (padded 32 cfg.mqtt_pass) rest₃ (length-padded 32 _)

  slice_wuser : slice image 111 143 ≡ padded 32 cfg.web_user
  unfolding image rest₃
  slice_wuser =
      ap (take 32) (after_id 64 ∙ after_muser 32 ∙ after_mpass 0)
      ∙ take-append_length 32 (padded 32 cfg.web_user) rest₄ (length-padded 32 _)

  slice_wpass : slice image 143 175 ≡ padded 32 cfg.web_pass
  unfolding image rest₄ rest₃
  slice_wpass =
      ap (take 32) (
        after_id 96
        ∙ after_muser 64
        ∙ after_mpass 32
        ∙ drop-append_add 32 0 (padded 32 cfg.web_user) rest₄ (length-padded 32 _))
      ∙ take-append_length 32 (padded 32 cfg.web_pass) [] (length-padded 32 _)

  image-Passes : Passes image cfg.client_id
  unfolding image
  image-Passes = record {
    long = omega (arith, length-fields);
    magic_ok = refl;
    prefix_pos = v.prefix_pos;
    prefix_le = v.prefix_le;
    port_pos = omega (arith, port_bytes cfg.broker_port v.port_lt, v.port_pos);
    id_text =
        ap (λ (t : Bytes). from_utf8 (until_nul 24 t)) slice_id ∙ from_utf8-field 24 _ v.client_id;
    id_fits = v.client_id.fits;
  }

  credential : {slot s : Bytes} → slot ≡ padded 32 s → IsField 32 s → read_str 32 slot ≡ s
  credential e f = ap (read_str 32) e ∙ read_str-padded 32 _ f

  image-reading : reading image cfg.client_id ≡ cfg
  unfolding image
  image-reading = λ i. record {
    ip = cfg.ip;
    prefix_len = cfg.prefix_len;
    gateway = cfg.gateway;
    broker_ip = cfg.broker_ip;
    broker_port = port_bytes cfg.broker_port v.port_lt i;
    client_id = cfg.client_id;
    mqtt_user = credential slice_muser v.mqtt_user i;
    mqtt_pass = credential slice_mpass v.mqtt_pass i;
    web_user = credential slice_wuser v.web_user i;
    web_pass = credential slice_wpass v.web_pass i;
  }

  -- Every valid configuration is read back from its image unchanged.
  pub from_bytes-to_bytes : from_bytes (to_bytes cfg) ≡ some cfg
  unfolding image
  from_bytes-to_bytes =
      ap from_bytes (
        layout cfg v.client_id.fits v.mqtt_user.fits v.mqtt_pass.fits v.web_user.fits
          v.web_pass.fits)
      ∙ Passes-reading image cfg.client_id image-Passes
      ∙ ap some image-reading

  -- The image fills its 175 bytes exactly.
  pub length-to_bytes : length (to_bytes cfg) ≡ 175
  unfolding image
  length-to_bytes =
      ap length (
        layout cfg v.client_id.fits v.mqtt_user.fits v.mqtt_pass.fits v.web_user.fits
          v.web_pass.fits)
      ∙ omega (arith, length-fields)
