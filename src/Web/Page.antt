-- ===== src/Web/Page.antt =====
-- src/web.rs: what the pages are put together from. What a handler writes to the socket is its bytes,
-- in order; a failed write is ignored, as the code does.
pub mod Head
pub mod Foot
pub mod LoginTexts
pub mod Responses
pub mod Dashboard
pub mod Printed
pub mod Scanned
pub mod Front
pub mod Shown
pub mod State
pub mod Answer
mod Tests
use jzf407_rust.Prelude.{ℕ, ◌+◌, Bool, List, [], ◌∷◌, ◌++◌, Bytes, length, leb, if◌then◌else◌}
use jzf407_rust.Text.{text}
use jzf407_rust.Text.Decimal.{to_decimal}
use jzf407_rust.WebForm.{Result, ok, err, html_escape_attr}
use jzf407_rust.NetConfig.{Ipv4}
use jzf407_rust.FaultMarker.{ResetReason}
use jzf407_rust.Outputs.{led1, led2, SharedOutputs, get_relay, get_led}

-- `let _ = buf.push_str(s)` on a `heapless::String<n>`: nothing is added where it does not fit.
abbrev pub push_whole : ℕ → Bytes → Bytes → Bytes
push_whole n buf s = if leb (length buf + length s) n then buf ++ s else buf

-- `let _ = write!(buf, ..)` on a `heapless::String<n>`, given the pieces of the format in order: it
-- stops at the first that does not fit.
unfoldable pub write_pieces : ℕ → Bytes → List Bytes → Bytes
write_pieces n buf [] = buf
write_pieces n buf (piece ∷ rest) =
    let later = write_pieces n (buf ++ piece) rest in
    if leb (length buf + length piece) n then later else buf

unfoldable pub push_u8_dec : ℕ → Bytes → ℕ → Bytes
unfolding write_pieces
push_u8_dec n buf v = write_pieces n buf (to_decimal v ∷ [])

unfoldable pub push_u16_dec : ℕ → Bytes → ℕ → Bytes
unfolding write_pieces
push_u16_dec n buf v = write_pieces n buf (to_decimal v ∷ [])

unfoldable pub fmt_ipv4 : Ipv4 → Bytes
unfolding push_u8_dec
fmt_ipv4 addr =
    let s₀ = push_u8_dec 16 [] addr.a in
    let s₁ = push_u8_dec 16 (push_whole 16 s₀ (b'.' ∷ [])) addr.b in
    let s₂ = push_u8_dec 16 (push_whole 16 s₁ (b'.' ∷ [])) addr.c in
    push_u8_dec 16 (push_whole 16 s₂ (b'.' ∷ [])) addr.d

unfoldable pub fmt_u8 : ℕ → Bytes
unfolding push_u8_dec
fmt_u8 v = push_u8_dec 4 [] v

unfoldable pub fmt_u16 : ℕ → Bytes
unfolding push_u16_dec
fmt_u16 v = push_u16_dec 6 [] v

-- What is written if the escaped text fits its buffer.
abbrev written_if_ok : Result Bytes → Bytes
written_if_ok (ok escaped) = escaped
written_if_ok (err problem) = []

unfoldable pub write_attr : Bytes → Bytes
write_attr s = written_if_ok (html_escape_attr 256 s)

unfoldable pub pill : Bytes → Bool → Bytes → Bytes
pill id on label =
    text "<span class='pill "
    ++ (if on then text "on" else text "off")
    ++ text "' id='"
    ++ id
    ++ text "'><span class='dot'></span>"
    ++ label
    ++ text "</span>"

-- What `send_page` and `send_state` sample of the other tasks, and the reason of the last reset.
pub record View : Type 0 where
  pub relay_on : Bool
  pub led1_on : Bool
  pub led2_on : Bool
  pub link_up : Bool
  pub mqtt_up : Bool
  pub reset : ResetReason

-- The start of `send_page`: the outputs, the link and `MQTT_ONLINE` as they are now.
unfoldable pub sample : SharedOutputs → Bool → Bool → ResetReason → View
sample outputs link mqtt reset = record {
  relay_on = get_relay outputs;
  led1_on = get_led led1 outputs;
  led2_on = get_led led2 outputs;
  link_up = link;
  mqtt_up = mqtt;
  reset = reset;
}
