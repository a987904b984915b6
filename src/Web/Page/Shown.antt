-- ===== src/Web/Page/Shown.antt =====
-- The form of the dashboard shows the configuration, without its passwords.
use jzf407_rust.Prelude.{
  ℕ, ◌≤◌, ◌≡◌, refl, ap, ◌∙◌, Bool, true, false, List, [], ◌∷◌, ◌++◌, Bytes, bytes_eq, arith, some,
  if◌then◌else◌,
}
use jzf407_rust.Text.{text, texts, encode_code, codes}
use jzf407_rust.Text.Utf8.{concat, IsField, nil_IsField}
use jzf407_rust.Text.Split.{strip_prefix, after_first}
use jzf407_rust.WebForm.Escape.{escaped, escaped-IsInert, html_escape_attr_fits}
use jzf407_rust.WebForm.Escape.Entities.{unescape, unescape_from, unescape-escaped}
use jzf407_rust.NetConfig.{NetworkConfig, cred_max}
use jzf407_rust.Web.Form.{parse_form}
use jzf407_rust.NetConfig.Valid.{IsValid}
use jzf407_rust.Web.Form.RoundTrip.{typed, parse_form-form_body}
use jzf407_rust.Web.Browser.{
  Field, form_body, strip_newlines, until, tag_at, opened, field_of, attribute, form_fields,
}
use jzf407_rust.Web.Page.{View, write_attr, fmt_ipv4, fmt_u8, fmt_u16}
use jzf407_rust.Web.Page.Foot.{page_foot}
use jzf407_rust.Web.Page.Dashboard.{page_top, page_status, page_form, send_page, is_empty}
use jzf407_rust.Web.Page.Printed.{
  fmt_ipv4-dotted, fmt_u8-decimal, fmt_u16-decimal, dotted-Numeric, decimal-Numeric, Numeric,
}
use jzf407_rust.Web.Page.Front.{page_top-Skips, page_status-Skips}
use jzf407_rust.Web.Page.Scanned.{
  OneLine, strip_newlines-OneLine, save_fields, skipped, input_shown, Numeric-IsInert,
  shown-Numeric,
}

-- A text of the configuration is written whole.
write_attr-escaped : (n : ℕ) (s : Bytes) → n ≤ 32 → IsField n s → write_attr s ≡ escaped s
unfolding write_attr
write_attr-escaped n s h f = rw (html_escape_attr_fits 256 s (omega (arith, f.fits)))

-- The configuration with its passwords left out.
abbrev pub without_passwords : NetworkConfig → NetworkConfig
without_passwords cfg = record cfg { mqtt_pass = []; web_pass = [] }

-- What the inputs can show of a configuration: no password, and no line break.
abbrev pub showable : NetworkConfig → NetworkConfig
showable cfg = record (without_passwords cfg) {
  client_id = strip_newlines cfg.client_id;
  mqtt_user = strip_newlines cfg.mqtt_user;
  web_user = strip_newlines cfg.web_user;
}

-- The fields that parts of the page show.
record Shows (inside : Bool) (parts : List Bytes) (fields : List Field) : Type 0 where
  shows : save_fields inside (concat parts) ≡ fields

-- What a part of the page shows when a value stands at its end.
abbrev Reads : Bool → Bytes → Bytes → Type 0
Reads inside front name =
    (t : Bytes)
    → save_fields inside (front ++ t)
      ≡ (name, strip_newlines (unescape (until b'\'' (until b'>' t)))) ∷ save_fields true t

module _ (inside : Bool) (front name next : Bytes) (others : List Bytes) (fields : List Field)
    (reads : Reads inside front name)
    (stops : until b'\'' (until b'>' (concat (next ∷ others))) ≡ [])
    (later : Shows true (next ∷ others) fields) where
  number_shown :
      (printed v : Bytes)
      → printed ≡ v
      → Numeric v
      → Shows inside (front ∷ printed ∷ next ∷ others) ((name, v) ∷ fields)
  number_shown printed v e h = rw e (record {
    shows =
        input_shown inside front v name next others fields reads (Numeric-IsInert v h) stops
          later.shows
        ∙ ap (λ (x : Bytes). (name, x) ∷ fields) (shown-Numeric v h);
  })

  attr_shown :
      (n : ℕ) (s : Bytes)
      → n ≤ 32
      → IsField n s
      → Shows inside (front ∷ write_attr s ∷ next ∷ others) ((name, strip_newlines s) ∷ fields)
  attr_shown n s h f = rw (write_attr-escaped n s h f) (record {
    shows =
        input_shown inside front (escaped s) name next others fields reads
          (escaped-IsInert s f.utf8) stops later.shows
        ∙ ap (λ (x : Bytes). (name, strip_newlines x) ∷ fields) (unescape-escaped s f.utf8);
  })

-- A password field, which shows nothing, and says whether there is a password.
blank_shown :
    (front name : Bytes) (given : Bool) (others : List Bytes) (fields : List Field)
    → ((t : Bytes) → save_fields true (front ++ t) ≡ (name, []) ∷ save_fields true t)
    → Shows true others fields
    → Shows true
        (front ∷ (if given then [] else text "leave blank to keep") ∷ others)
        ((name, []) ∷ fields)
unfolding concat form_fields tag_at opened field_of until attribute after_first strip_prefix
    bytes_eq text encode_code
blank_shown front name true others fields reads later = record {
  shows = reads (concat others) ∙ ap (◌∷◌ (name, [])) later.shows;
}
blank_shown front name false others fields reads later = record {
  shows = reads (text "leave blank to keep" ++ concat others) ∙ ap (◌∷◌ (name, [])) later.shows;
}

-- The form, as a browser reads it.
form_shown :
    (cfg : NetworkConfig) → IsValid cfg → Shows false (page_form cfg) (typed (showable cfg))
unfolding page_form page_foot concat unescape unescape_from form_fields tag_at opened field_of until
    strip_newlines attribute after_first strip_prefix bytes_eq text texts encode_code
form_shown cfg v =
    number_shown false _ _ _ _ _ (λ t. refl) refl
      (number_shown true _ _ _ _ _ (λ t. refl) refl
        (number_shown true _ _ _ _ _ (λ t. refl) refl
          (number_shown true _ _ _ _ _ (λ t. refl) refl
            (number_shown true _ _ _ _ _ (λ t. refl) refl
              (attr_shown true _ _ _ _ _ (λ t. refl) refl
                (attr_shown true _ _ _ _ _ (λ t. refl) refl
                  (blank_shown _ _ (is_empty cfg.mqtt_pass) _ _ (λ t. refl)
                    (attr_shown true _ _ _ _ _ (λ t. refl) refl
                      (blank_shown _ _ (is_empty cfg.web_pass) _ _ (λ t. refl)
                        (record { shows = refl }))
                      32 cfg.web_user (omega arith) v.web_user))
                  32 cfg.mqtt_user (omega arith) v.mqtt_user)
                24 cfg.client_id (omega arith) v.client_id)
              (fmt_u16 cfg.broker_port) _ (fmt_u16-decimal cfg.broker_port v.port_lt)
              (decimal-Numeric cfg.broker_port))
            (fmt_ipv4 cfg.broker_ip) _ (fmt_ipv4-dotted cfg.broker_ip v.broker_ip)
            (dotted-Numeric cfg.broker_ip))
          (fmt_ipv4 cfg.gateway) _ (fmt_ipv4-dotted cfg.gateway v.gateway)
          (dotted-Numeric cfg.gateway))
        (fmt_u8 cfg.prefix_len) _ (fmt_u8-decimal cfg.prefix_len (omega (arith, v.prefix_le)))
        (decimal-Numeric cfg.prefix_len))
      (fmt_ipv4 cfg.ip) _ (fmt_ipv4-dotted cfg.ip v.ip) (dotted-Numeric cfg.ip)

-- The form on the dashboard has the ten fields that `parse_form` knows, and a browser shows in them
-- the configuration as it is, whatever quotes, brackets or entities its texts hold, but for line
-- breaks, which an input drops; the two password fields are blank. (The configuration is valid, as
-- every loaded one is.)
pub page_shows_configuration :
    (cfg : NetworkConfig) (v : View)
    → IsValid cfg
    → form_fields (codes "/save") false (concat (send_page cfg v)) ≡ typed (showable cfg)
unfolding send_page
page_shows_configuration cfg v valid =
    skipped false (page_top v) (page_status cfg v ++ page_form cfg) (page_top-Skips v)
    ∙ skipped false (page_status cfg v) (page_form cfg) (page_status-Skips cfg v valid.ip)
    ∙ (form_shown cfg valid).shows

-- No text that the form shows has a line break.
pub record IsOneLine (cfg : NetworkConfig) : Type 0 where
  pub client_id : OneLine cfg.client_id
  pub mqtt_user : OneLine cfg.mqtt_user
  pub web_user : OneLine cfg.web_user

showable-IsOneLine : (cfg : NetworkConfig) → IsOneLine cfg → showable cfg ≡ without_passwords cfg
showable-IsOneLine cfg h =
    rw
      (
        strip_newlines-OneLine cfg.client_id h.client_id,
        strip_newlines-OneLine cfg.mqtt_user h.mqtt_user,
        strip_newlines-OneLine cfg.web_user h.web_user,
      )
      refl

-- Whoever opens the dashboard and saves without a change saves the configuration that is there: the
-- form, sent as a browser encodes it, is read back as the same valid configuration, passwords included.
-- (Its client id and its two user names have no line break, which an input would drop.)
pub unchanged_form_keeps_configuration :
    (cfg : NetworkConfig) (v : View)
    → IsValid cfg
    → IsOneLine cfg
    → parse_form (form_body (form_fields (codes "/save") false (concat (send_page cfg v)))) cfg
      ≡ some cfg
unchanged_form_keeps_configuration cfg v valid lines =
    ap (λ (fields : List Field). parse_form (form_body fields) cfg)
      (page_shows_configuration cfg v valid ∙ ap typed (showable-IsOneLine cfg lines))
    ∙ parse_form-form_body cfg (without_passwords cfg) (blanked valid)
  where
    blanked : IsValid cfg → IsValid (without_passwords cfg)
    blanked k = record {
      ip = k.ip;
      gateway = k.gateway;
      broker_ip = k.broker_ip;
      prefix_pos = k.prefix_pos;
      prefix_le = k.prefix_le;
      port_pos = k.port_pos;
      port_lt = k.port_lt;
      client_id = k.client_id;
      mqtt_user = k.mqtt_user;
      mqtt_pass = nil_IsField cred_max;
      web_user = k.web_user;
      web_pass = nil_IsField cred_max;
    }

-- No stored password is on the page: two configurations that differ only in their passwords, and in
-- which the same ones are set, have the same page, byte for byte.
pub passwords_not_rendered :
    (cfg : NetworkConfig) (v : View) (mqtt mqtt' web web' : Bytes)
    → is_empty mqtt ≡ is_empty mqtt'
    → is_empty web ≡ is_empty web'
    → send_page (record cfg { mqtt_pass = mqtt; web_pass = web }) v
      ≡ send_page (record cfg { mqtt_pass = mqtt'; web_pass = web' }) v
unfolding send_page page_status page_form
passwords_not_rendered cfg v mqtt mqtt' web web' m w = rw (m, w)
