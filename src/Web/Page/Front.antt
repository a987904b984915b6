-- ===== src/Web/Page/Front.antt =====
-- What a browser finds on the dashboard: the form, with the configuration in it.
use jzf407_rust.Prelude.{refl, Bool, true, false, All, bytes_eq, if◌then◌else◌}
use jzf407_rust.Text.{text, texts, encode_code}
use jzf407_rust.Text.Split.{strip_prefix}
use jzf407_rust.NetConfig.{Ipv4, NetworkConfig}
use jzf407_rust.NetConfig.Valid.{IsAddress}
use jzf407_rust.FaultMarker.{
  ResetReason, as_str, power_on, nrst_pin, software, iwdg_timeout, brown_out, stack_overflow,
  malloc_failed, remote_reboot, unknown,
}
use jzf407_rust.Web.Browser.{until, tag_at, opened, field_of, attribute, form_fields}
use jzf407_rust.Web.Page.{View, pill, fmt_ipv4}
use jzf407_rust.Web.Page.Head.{page_head}
use jzf407_rust.Web.Page.Responses.{http_ok_text}
use jzf407_rust.Web.Page.Dashboard.{page_top, page_status}
use jzf407_rust.Web.Page.Printed.{fmt_ipv4-dotted, dotted-Numeric}
use jzf407_rust.Web.Page.Scanned.{Skips, inert-Skips, Numeric-IsInert}

either_lit :
    (on : Bool)
    → Skips false (
        if on
        then text "<span class='ok'>●</span> NOMINAL"
        else text "<span class='hot'>●</span> DOWN")
unfolding form_fields tag_at opened field_of until attribute strip_prefix bytes_eq text texts
    encode_code
either_lit true t = refl
either_lit false t = refl

reset-Skips : (r : ResetReason) → Skips false (as_str r)
unfolding as_str form_fields tag_at opened field_of until attribute strip_prefix bytes_eq text texts
    encode_code
reset-Skips power_on t = refl
reset-Skips nrst_pin t = refl
reset-Skips software t = refl
reset-Skips iwdg_timeout t = refl
reset-Skips brown_out t = refl
reset-Skips stack_overflow t = refl
reset-Skips malloc_failed t = refl
reset-Skips remote_reboot t = refl
reset-Skips unknown t = refl

pill_rp : (on : Bool) → Skips false (pill (text "rp") on (if on then text "ON" else text "OFF"))
unfolding pill form_fields tag_at opened field_of until attribute strip_prefix bytes_eq text texts
    encode_code
pill_rp true t = refl
pill_rp false t = refl

pill_l1 : (on : Bool) → Skips false (pill (text "l1") on (text "LED1"))
unfolding pill form_fields tag_at opened field_of until attribute strip_prefix bytes_eq text texts
    encode_code
pill_l1 true t = refl
pill_l1 false t = refl

pill_l2 : (on : Bool) → Skips false (pill (text "l2") on (text "LED2"))
unfolding pill form_fields tag_at opened field_of until attribute strip_prefix bytes_eq text texts
    encode_code
pill_l2 true t = refl
pill_l2 false t = refl

pill_lk : (on : Bool) → Skips false (pill (text "lk") on (if on then text "Up" else text "Down"))
unfolding pill form_fields tag_at opened field_of until attribute strip_prefix bytes_eq text texts
    encode_code
pill_lk true t = refl
pill_lk false t = refl

pill_mq :
    (on : Bool) → Skips false (pill (text "mq") on (if on then text "Online" else text "Offline"))
unfolding pill form_fields tag_at opened field_of until attribute strip_prefix bytes_eq text texts
    encode_code
pill_mq true t = refl
pill_mq false t = refl

ip-Skips : (ip : Ipv4) → IsAddress ip → Skips false (fmt_ipv4 ip)
ip-Skips ip h =
    rw (fmt_ipv4-dotted ip h) (inert-Skips false _ (Numeric-IsInert _ (dotted-Numeric ip)))

-- No field of the form is in front of it.
pub page_top-Skips : (v : View) → All (Skips false) (page_top v)
unfolding page_top http_ok_text page_head form_fields tag_at opened field_of until attribute
    strip_prefix bytes_eq text texts encode_code
page_top-Skips v = (
  λ t. refl,
  (
    λ t. refl,
    (
      λ t. refl,
      (
        either_lit v.link_up,
        (λ t. refl, (λ t. refl, (λ t. refl, (reset-Skips v.reset, (λ t. refl, (λ t. refl, tt)))))),
      ),
    ),
  ),
)

pub page_status-Skips :
    (cfg : NetworkConfig) (v : View) → IsAddress cfg.ip → All (Skips false) (page_status cfg v)
unfolding page_status form_fields tag_at opened field_of until attribute strip_prefix bytes_eq text
    texts encode_code
page_status-Skips cfg v ip = (
  λ t. refl,
  (
    pill_rp v.relay_on,
    (
      λ t. refl,
      (
        pill_l1 v.led1_on,
        (
          λ t. refl,
          (
            pill_l2 v.led2_on,
            (
              λ t. refl,
              (
                λ t. refl,
                (
                  pill_lk v.link_up,
                  (
                    λ t. refl,
                    (pill_mq v.mqtt_up, (λ t. refl, (ip-Skips cfg.ip ip, (λ t. refl, tt)))),
                  ),
                ),
              ),
            ),
          ),
        ),
      ),
    ),
  ),
)
