-- ===== src/Web/Page/State.antt =====
-- src/web.rs, src/sse.rs: the state as JSON, for a poll of `/state` and for an event.
use jzf407_rust.Prelude.{
  ℕ, ◌+◌, ◌^◌, ◌≤◌, ◌<◌, ◌≡◌, refl, sym, ap, ◌∙◌, Bool, true, false, List, [], ◌∷◌, ◌++◌, Bytes,
  length, length-append, append-nil, append_assoc, le→leb, arith, if◌then◌else◌,
}
use jzf407_rust.Text.{codes}
use jzf407_rust.Text.Utf8.{concat}
use jzf407_rust.Text.Decimal.{to_decimal, length-to_decimal}
use jzf407_rust.NetConfig.{Ipv4, NetworkConfig}
use jzf407_rust.NetConfig.Valid.{IsAddress}
use jzf407_rust.NetConfig.Address.{dotted}
use jzf407_rust.FaultMarker.{
  ResetReason, as_str, power_on, nrst_pin, software, iwdg_timeout, brown_out, stack_overflow,
  malloc_failed, remote_reboot, unknown,
}
use jzf407_rust.Sse.{Snapshot}
use jzf407_rust.Web.Page.{View, write_pieces, fmt_ipv4}
use jzf407_rust.Web.Page.Printed.{fmt_ipv4-dotted}
use jzf407_rust.Web.Page.Responses.{http_ok_json_text}

-- `b as u8`, printed.
abbrev pub digit : Bool → Bytes
digit on = if on then codes "1" else codes "0"

-- What the format of `send_state` writes, piece by piece.
abbrev pub state_pieces : NetworkConfig → View → ℕ → List Bytes
state_pieces cfg v up =
    codes "{\"relay\":"
    ∷ digit v.relay_on
    ∷ codes ",\"led1\":"
    ∷ digit v.led1_on
    ∷ codes ",\"led2\":"
    ∷ digit v.led2_on
    ∷ codes ",\"link\":"
    ∷ digit v.link_up
    ∷ codes ",\"mqtt\":"
    ∷ digit v.mqtt_up
    ∷ codes ",\"up\":"
    ∷ to_decimal up
    ∷ codes ",\"ip\":\""
    ∷ fmt_ipv4 cfg.ip
    ∷ codes "\",\"rst\":\""
    ∷ as_str v.reset
    ∷ codes "\"}"
    ∷ []

-- `send_state`, with the uptime in seconds.
unfoldable pub send_state : NetworkConfig → View → ℕ → List Bytes
unfolding write_pieces
send_state cfg v up = http_ok_json_text ∷ write_pieces 160 [] (state_pieces cfg v up) ∷ []

abbrev pub event_pieces : Snapshot → ℕ → List Bytes
event_pieces s up =
    codes "data: {\"relay\":"
    ∷ digit s.relay
    ∷ codes ",\"led1\":"
    ∷ digit s.led1_on
    ∷ codes ",\"led2\":"
    ∷ digit s.led2_on
    ∷ codes ",\"link\":"
    ∷ digit s.link
    ∷ codes ",\"mqtt\":"
    ∷ digit s.mqtt
    ∷ codes ",\"up\":"
    ∷ to_decimal up
    ∷ codes "}\n\n"
    ∷ []

-- `Snapshot::write_event` into an empty `heapless::String<n>`.
unfoldable pub write_event : ℕ → Snapshot → ℕ → Bytes
unfolding write_pieces
write_event n s up = write_pieces n [] (event_pieces s up)

-- The length of pieces put together.
abbrev total : List Bytes → ℕ
total [] = 0
total (p ∷ ps) = length p + total ps

-- Pieces that fit are written whole.
pub pieces_fit :
    (n : ℕ) (buf : Bytes) (ps : List Bytes)
    → length buf + total ps ≤ n
    → write_pieces n buf ps ≡ buf ++ concat ps
unfolding write_pieces concat
pieces_fit n buf [] h = sym (append-nil buf)
pieces_fit n buf (p ∷ ps) h = rw (le→leb (length buf + length p) n (omega arith)) (
    pieces_fit n (buf ++ p) ps (omega (arith, length-append buf p))
    ∙ append_assoc buf p (concat ps))

length-digit : (on : Bool) → length (digit on) ≡ 1
length-digit true = refl
length-digit false = refl

length-as_str : (r : ResetReason) → length (as_str r) ≤ 14
unfolding as_str
length-as_str power_on = omega arith
length-as_str nrst_pin = omega arith
length-as_str software = omega arith
length-as_str iwdg_timeout = omega arith
length-as_str brown_out = omega arith
length-as_str stack_overflow = omega arith
length-as_str malloc_failed = omega arith
length-as_str remote_reboot = omega arith
length-as_str unknown = omega arith

length-dotted : (ip : Ipv4) → IsAddress ip → length (dotted ip) ≤ 15
length-dotted ip h = omega (
  arith,
  length-append (to_decimal ip.a)
      (b'.' ∷ to_decimal ip.b ++ (b'.' ∷ to_decimal ip.c ++ (b'.' ∷ to_decimal ip.d))),
  length-append (to_decimal ip.b) (b'.' ∷ to_decimal ip.c ++ (b'.' ∷ to_decimal ip.d)),
  length-append (to_decimal ip.c) (b'.' ∷ to_decimal ip.d),
  length-to_decimal 2 ip.a (omega (arith, h.a_lt)),
  length-to_decimal 2 ip.b (omega (arith, h.b_lt)),
  length-to_decimal 2 ip.c (omega (arith, h.c_lt)),
  length-to_decimal 2 ip.d (omega (arith, h.d_lt)),
)

pub write_event_complete :
    (s : Snapshot) (up : ℕ) → up < 2 ^ 64 → write_event 128 s up ≡ concat (event_pieces s up)
unfolding write_event
write_event_complete s up h = pieces_fit 128 [] (event_pieces s up) (
    omega (
      arith,
      length-to_decimal 19 up (omega arith),
      length-digit s.relay,
      length-digit s.led1_on,
      length-digit s.led2_on,
      length-digit s.link,
      length-digit s.mqtt,
    ))

-- Neither buffer ever cuts the JSON off: for an uptime that is a `u64` and an address of four bytes,
-- the 160 bytes of `send_state` hold the whole object, and the 128 bytes of an event hold the event
-- with the blank line that ends it.
pub json_complete :
    (cfg : NetworkConfig) (v : View) (s : Snapshot) (up : ℕ)
    → IsAddress cfg.ip
    → up < 2 ^ 64
    → (send_state cfg v up ≡ http_ok_json_text ∷ concat (state_pieces cfg v up) ∷ [])
      × (write_event 128 s up ≡ concat (event_pieces s up))
unfolding send_state
json_complete cfg v s up ip h =
    let digits = length-to_decimal 19 up (omega arith) in
    (
      ap (λ (x : Bytes). http_ok_json_text ∷ x ∷ [])
          (pieces_fit 160 [] (state_pieces cfg v up) (
            omega (
              arith,
              digits,
              length-digit v.relay_on,
              length-digit v.led1_on,
              length-digit v.led2_on,
              length-digit v.link_up,
              length-digit v.mqtt_up,
              ap length (fmt_ipv4-dotted cfg.ip ip),
              length-dotted cfg.ip ip,
              length-as_str v.reset,
            ))),
      write_event_complete s up h,
    )
