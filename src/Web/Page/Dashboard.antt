-- ===== src/Web/Page/Dashboard.antt =====
-- src/web.rs: the dashboard, `send_page`: what it writes, call by call.
use jzf407_rust.Prelude.{Bool, true, false, [], ◌∷◌, ◌++◌, List, Bytes, if◌then◌else◌}
use jzf407_rust.Text.{text, texts}
use jzf407_rust.NetConfig.{NetworkConfig}
use jzf407_rust.FaultMarker.{as_str}
use jzf407_rust.Web.Page.{View, pill, write_attr, fmt_ipv4, fmt_u8, fmt_u16}
use jzf407_rust.Web.Page.Head.{page_head}
use jzf407_rust.Web.Page.Foot.{page_foot}
use jzf407_rust.Web.Page.Responses.{http_ok_text}

abbrev pub is_empty : Bytes → Bool
is_empty [] = true
is_empty (b ∷ rest) = false

-- The head, the bar at the top and the figures.
unfoldable pub page_top : View → List Bytes
page_top v =
    http_ok_text
    ∷ page_head
    ∷ (texts (
        "<div class='topbar'><div class='left'><span class='brand'>JZF407 // SIGNAL.EDGE</span><span>SEC ▸ STM32F407VET6</span></div>"
        ∷ "<div class='brand' style='font-size:10px;letter-spacing:.4em'>— REV 2.2 —</div>"
        ∷ "<div class='right'><span>UPLINK " ∷ []))
    ∷ (if v.link_up
        then text "<span class='ok'>●</span> NOMINAL"
        else text "<span class='hot'>●</span> DOWN")
    ∷ text
        "</span><span>BUS <span class='hot'>●</span> 168MHZ</span><span id='clk'>--:--:--</span></div></div>"
    ∷ (texts (
        "<main><span class='eyebrow'>Arm® Cortex®-M4F // Embassy async firmware</span>"
        ∷ "<h1 class='title'>JZF<span class='slash'>/</span><span class='accent'>407</span></h1>"
        ∷ "<p class='lede'>STM32F407VET6 on the Embassy async executor — <b>real-time GPIO, Ethernet, and MQTT</b> over a smoltcp stack. Relay drives a <span class='pink'>2 s monostable pulse</span>, LEDs persist to EEPROM, and this page streams live state over <b>Server-Sent Events</b> — no polling, instant updates.</p>"
        ∷ []))
    ∷ (texts (
        "<div class='specs bracketed'><span class='bk1'></span><span class='bk2'></span>"
        ∷ "<div class='spec'><div class='k'>core</div><div class='v'>M4F<span class='u'>@168</span></div><div class='sub'>Cortex-M4 + FPU</div></div>"
        ∷ "<div class='spec'><div class='k'>flash</div><div class='v'>512<span class='u'>KB</span></div><div class='sub'>~28% used</div></div>"
        ∷ "<div class='spec'><div class='k'>sram</div><div class='v'>128<span class='u'>KB</span></div><div class='sub'>+64K CCM</div></div>"
        ∷ "<div class='spec'><div class='k'>uptime</div><div class='v' id='up' style='font-size:20px'>—</div><div class='sub' id='rst'>"
        ∷ []))
    ∷ as_str v.reset
    ∷ text "</div></div></div>"
    ∷ text "<div class='grid'><div>"
    ∷ []

-- The outputs and the link.
unfoldable pub page_status : NetworkConfig → View → List Bytes
page_status cfg v =
    (texts (
      "<div class='section-num'><span>0X01</span><span class='bar'></span><span class='mg'>// I/O STATE</span></div>"
      ∷ "<div class='win'><span class='bk1'></span><span class='bk2'></span>"
      ∷ "<div class='chrome'><span class='path'>gpio<span class='slash'>/</span>outputs</span><span class='lights'><i></i><i></i><i></i></span></div>"
      ∷ "<div class='wbody'>"
      ∷ "<div class='io'><div class='lbl'>RELAY<small>MQTT stm32/relay → 2s pulse</small></div>"
      ∷ []))
    ∷ pill (text "rp") v.relay_on (if v.relay_on then text "ON" else text "OFF")
    ∷ text
        "</div><div class='io'><div class='lbl'>LED 1<small>stm32/led/1 · persisted</small></div>"
    ∷ pill (text "l1") v.led1_on (text "LED1")
    ∷ text
        "</div><div class='io'><div class='lbl'>LED 2<small>stm32/led/2 · persisted</small></div>"
    ∷ pill (text "l2") v.led2_on (text "LED2")
    ∷ text "</div></div></div>"
    ∷ (texts (
        "<div class='section-num'><span>0X02</span><span class='bar'></span><span class='mg'>// LINK</span></div>"
        ∷ "<div class='win'><span class='bk1'></span><span class='bk2'></span>"
        ∷ "<div class='chrome'><span class='path'>net<span class='slash'>/</span>status</span><span class='lights'><i></i><i></i><i></i></span></div>"
        ∷ "<div class='wbody'>" ∷ "<div class='kv'><span class='k'>Ethernet</span>" ∷ []))
    ∷ pill (text "lk") v.link_up (if v.link_up then text "Up" else text "Down")
    ∷ text "</div><div class='kv'><span class='k'>MQTT Broker</span>"
    ∷ pill (text "mq") v.mqtt_up (if v.mqtt_up then text "Online" else text "Offline")
    ∷ text "</div><div class='kv'><span class='k'>IP Address</span><span class='v' id='ip'>"
    ∷ fmt_ipv4 cfg.ip
    ∷ text "</span></div></div></div></div>"
    ∷ []

-- The form with the configuration, the buttons, and the script.
unfoldable pub page_form : NetworkConfig → List Bytes
page_form cfg =
    (texts (
      "<div><div class='section-num'><span>0X03</span><span class='bar'></span><span class='mg'>// CONFIG</span></div>"
      ∷ "<div class='win'><span class='bk1'></span><span class='bk2'></span>"
      ∷ "<div class='chrome'><span class='path'>etc<span class='slash'>/</span>config.toml</span><span>EEPROM</span></div>"
      ∷ "<div class='wbody'><form method='post' action='/save'>"
      ∷ "<div class='sec first'>Network</div><label>IP address</label><input type='text' name='ip' value='"
      ∷ []))
    ∷ fmt_ipv4 cfg.ip
    ∷ text "'><div class='row'><div><label>Prefix</label><input type='number' name='prefix' value='"
    ∷ fmt_u8 cfg.prefix_len
    ∷ text "'></div><div><label>Gateway</label><input type='text' name='gw' value='"
    ∷ fmt_ipv4 cfg.gateway
    ∷ text
        "'></div></div><div class='sec'>MQTT Broker</div><div class='row'><div><label>Broker IP</label><input type='text' name='broker' value='"
    ∷ fmt_ipv4 cfg.broker_ip
    ∷ text "'></div><div><label>Port</label><input type='number' name='port' value='"
    ∷ fmt_u16 cfg.broker_port
    ∷ text "'></div></div><label>Client ID</label><input type='text' name='id' value='"
    ∷ write_attr cfg.client_id
    ∷ text
        "'><div class='sec'>MQTT Auth</div><div class='row'><div><label>Username</label><input type='text' name='muser' value='"
    ∷ write_attr cfg.mqtt_user
    ∷ text
        "'></div><div><label>Password</label><input type='password' name='mpass' value='' placeholder='"
    ∷ (if is_empty cfg.mqtt_pass then [] else text "leave blank to keep")
    ∷ text
        "'></div></div><div class='sec'>Web Login</div><div class='row'><div><label>Username</label><input type='text' name='wuser' value='"
    ∷ write_attr cfg.web_user
    ∷ text
        "'></div><div><label>Password</label><input type='password' name='wpass' value='' placeholder='"
    ∷ (if is_empty cfg.web_pass then [] else text "leave blank to keep")
    ∷ (texts (
        "'></div></div><button class='btn save'>▸ Save &amp; Reboot</button></form></div>"
        ∷ "<div class='foot'><form method='post' action='/reboot' style='flex:1'><button class='btn reboot'>Reboot</button></form>"
        ∷ "<button class='btn' style='flex:1' onclick='doLogout()'>Log Out</button></div>"
        ∷ "</div></div></div></main>" ∷ []))
    ∷ page_foot
    ∷ []

unfoldable pub send_page : NetworkConfig → View → List Bytes
unfolding page_top page_status page_form
send_page cfg v = page_top v ++ page_status cfg v ++ page_form cfg
