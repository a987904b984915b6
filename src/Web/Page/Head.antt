-- ===== src/Web/Page/Head.antt =====
-- src/web.rs: `PAGE_HEAD`, the head and the style sheet of the dashboard.
use jzf407_rust.Prelude.{[], ◌∷◌, Bytes}
use jzf407_rust.Text.{texts}

unfoldable pub page_head : Bytes
page_head = texts (
    "<!DOCTYPE html><html lang='en'><head><meta charset='utf-8'>"
    ∷ "<meta name='viewport' content='width=device-width,initial-scale=1'><title>JZF407 // SIGNAL.EDGE</title>"
    ∷ "<link rel='preconnect' href='https://fonts.gstatic.com' crossorigin>"
    ∷ "<link href='https://fonts.googleapis.com/css2?family=JetBrains+Mono:wght@400;500;700;800&display=swap' rel='stylesheet'>"
    ∷ "<style>"
    ∷ ":root{--bg:#05060a;--bg2:#090b14;--ink:#e8f6ff;--dim:#6a7891;--dimmer:#3a445a;--line:#18253b;--line-hot:#1f3a6b;--cy:#00e7ff;--cys:#6df1ff;--mg:#ff2bd6;--mg2:#ff6ae3;--vi:#7a4cff;--am:#ffb648;--gr:#36ffb2;--grid:72px}"
    ∷ "*{box-sizing:border-box;margin:0;padding:0}"
    ∷ "html,body{background:var(--bg);color:var(--ink);font-family:'JetBrains Mono',ui-monospace,Menlo,Consolas,monospace;font-weight:400;-webkit-font-smoothing:antialiased}"
    ∷ "body{min-height:100vh;overflow-x:hidden;background:radial-gradient(1200px 700px at 78% 18%,rgba(255,43,214,.10),transparent 65%),radial-gradient(900px 700px at 8% 80%,rgba(0,231,255,.10),transparent 60%),radial-gradient(1400px 900px at 50% 110%,rgba(122,76,255,.07),transparent 60%),var(--bg)}"
    ∷ ".scanlines,.grain,.vignette,.gridlines{position:fixed;inset:0;pointer-events:none;z-index:50}"
    ∷ ".scanlines{background:repeating-linear-gradient(to bottom,rgba(255,255,255,.025) 0 1px,transparent 1px 3px);mix-blend-mode:overlay;opacity:.6}"
    ∷ ".grain{background-image:url(\"data:image/svg+xml;utf8,<svg xmlns='http://www.w3.org/2000/svg' width='160' height='160'><filter id='n'><feTurbulence type='fractalNoise' baseFrequency='0.9' numOctaves='2' stitchTiles='stitch'/><feColorMatrix values='0 0 0 0 1 0 0 0 0 1 0 0 0 0 1 0 0 0 0.35 0'/></filter><rect width='100%25' height='100%25' filter='url(%23n)' opacity='0.5'/></svg>\");opacity:.08;mix-blend-mode:overlay}"
    ∷ ".vignette{background:radial-gradient(120% 80% at 50% 50%,transparent 55%,rgba(0,0,0,.65) 100%)}"
    ∷ ".gridlines{background-image:linear-gradient(to right,rgba(24,37,59,.55) 1px,transparent 1px),linear-gradient(to bottom,rgba(24,37,59,.55) 1px,transparent 1px);background-size:var(--grid) var(--grid);-webkit-mask-image:radial-gradient(120% 80% at 50% 40%,#000 30%,transparent 75%);mask-image:radial-gradient(120% 80% at 50% 40%,#000 30%,transparent 75%);opacity:.5;z-index:1}"
    ∷ ".topbar{position:relative;z-index:10;display:grid;grid-template-columns:1fr auto 1fr;align-items:center;gap:24px;padding:14px 28px;border-bottom:1px solid var(--line);font-size:11px;letter-spacing:.18em;text-transform:uppercase;color:var(--dim);background:linear-gradient(to bottom,rgba(0,0,0,.6),transparent);backdrop-filter:blur(2px)}"
    ∷ ".topbar .left,.topbar .right{display:flex;gap:22px;align-items:center}"
    ∷ ".topbar .right{justify-content:flex-end}"
    ∷ ".topbar .brand{color:var(--ink);font-weight:700;letter-spacing:.3em;display:flex;align-items:center;gap:10px}"
    ∷ ".topbar .brand::before{content:'';width:8px;height:8px;background:var(--cy);box-shadow:0 0 12px var(--cy),0 0 24px var(--cy);border-radius:50%;animation:pulse 1.6s ease-in-out infinite}"
    ∷ "@keyframes pulse{0%,100%{opacity:1;transform:scale(1)}50%{opacity:.45;transform:scale(.8)}}"
    ∷ ".topbar .ok{color:var(--gr)}.topbar .hot{color:var(--mg)}"
    ∷ ".tdot{width:5px;height:5px;background:var(--dimmer);border-radius:50%;display:inline-block;margin:0 2px 1px}"
    ∷ "main{position:relative;z-index:5;max-width:1180px;margin:0 auto;padding:44px 28px 60px}"
    ∷ ".eyebrow{display:inline-flex;align-items:center;gap:10px;font-size:11px;letter-spacing:.32em;text-transform:uppercase;color:var(--mg);padding:6px 10px;border:1px solid rgba(255,43,214,.45);background:linear-gradient(180deg,rgba(255,43,214,.08),rgba(255,43,214,0));margin-bottom:24px}"
    ∷ ".eyebrow::before{content:'';width:6px;height:6px;background:var(--mg);box-shadow:0 0 10px var(--mg)}"
    ∷ "h1.title{font-weight:800;font-size:clamp(48px,8vw,108px);line-height:.86;letter-spacing:-.04em;margin:0 0 16px;color:var(--ink);text-shadow:0 0 24px rgba(0,231,255,.18),0 0 80px rgba(0,231,255,.08)}"
    ∷ "h1.title .accent{color:transparent;-webkit-text-stroke:1.5px var(--cy);text-shadow:0 0 24px rgba(0,231,255,.45)}"
    ∷ "h1.title .slash{color:var(--mg);text-shadow:0 0 22px rgba(255,43,214,.6)}"
    ∷ "h1.title::after{content:'_';color:var(--cy);margin-left:-.05em;animation:blink 1.05s steps(2,end) infinite;text-shadow:0 0 22px rgba(0,231,255,.7)}"
    ∷ "@keyframes blink{0%,55%{opacity:1}55.01%,100%{opacity:0}}"
    ∷ ".lede{max-width:620px;font-size:13px;line-height:1.7;color:var(--dim);letter-spacing:.02em;margin:0 0 30px}"
    ∷ ".lede b{color:var(--ink);font-weight:500}.lede .pink{color:var(--mg2);font-weight:500}"
    ∷ ".specs{display:grid;grid-template-columns:repeat(4,1fr);border-top:1px solid var(--line);border-bottom:1px solid var(--line);margin-bottom:34px}"
    ∷ ".spec{padding:18px 18px 16px 0;border-right:1px solid var(--line);position:relative}"
    ∷ ".spec:last-child{border-right:none}"
    ∷ ".spec .k{font-size:10px;letter-spacing:.24em;color:var(--dim);text-transform:uppercase;margin-bottom:10px;display:flex;align-items:center;gap:6px}"
    ∷ ".spec .k::before{content:'//';color:var(--dimmer)}"
    ∷ ".spec .v{font-size:26px;font-weight:700;letter-spacing:-.02em;color:var(--ink);line-height:1;font-variant-numeric:tabular-nums}"
    ∷ ".spec .u{font-size:13px;color:var(--cy);margin-left:4px;font-weight:400}"
    ∷ ".spec .sub{font-size:10px;color:var(--dimmer);letter-spacing:.2em;text-transform:uppercase;margin-top:8px}"
    ∷ ".grid{display:grid;grid-template-columns:1fr 1fr;gap:48px;align-items:start}"
    ∷ "@media(max-width:980px){.grid{grid-template-columns:1fr;gap:36px}.topbar{grid-template-columns:1fr auto}.topbar .right{display:none}}"
    ∷ ".bracketed{position:relative}"
    ∷ ".bracketed::before,.bracketed::after,.bracketed>.bk1,.bracketed>.bk2{content:'';position:absolute;width:14px;height:14px;border:1px solid var(--cy);opacity:.7}"
    ∷ ".bracketed::before{top:-1px;left:-1px;border-right:none;border-bottom:none}"
    ∷ ".bracketed::after{top:-1px;right:-1px;border-left:none;border-bottom:none}"
    ∷ ".bracketed>.bk1{bottom:-1px;left:-1px;border-right:none;border-top:none}"
    ∷ ".bracketed>.bk2{bottom:-1px;right:-1px;border-left:none;border-top:none}"
    ∷ ".section-num{font-size:11px;letter-spacing:.34em;color:var(--dim);text-transform:uppercase;margin-bottom:18px;display:flex;align-items:center;gap:12px}"
    ∷ ".section-num .bar{flex:1;height:1px;background:linear-gradient(to right,var(--line-hot),transparent)}"
    ∷ ".section-num .mg{color:var(--mg)}"
    ∷ ".win{position:relative;border:1px solid var(--line-hot);background:linear-gradient(180deg,rgba(0,231,255,.04),rgba(0,0,0,0) 40%),var(--bg2);box-shadow:0 0 0 1px rgba(0,231,255,.06),0 30px 80px rgba(0,0,0,.55),inset 0 0 60px rgba(0,231,255,.03);margin-bottom:34px}"
    ∷ ".win::before,.win::after,.win>.bk1,.win>.bk2{content:'';position:absolute;width:10px;height:10px;border:1px solid var(--cy)}"
    ∷ ".win::before{top:-1px;left:-1px;border-right:none;border-bottom:none}"
    ∷ ".win::after{top:-1px;right:-1px;border-left:none;border-bottom:none}"
    ∷ ".win>.bk1{bottom:-1px;left:-1px;border-right:none;border-top:none}"
    ∷ ".win>.bk2{bottom:-1px;right:-1px;border-left:none;border-top:none}"
    ∷ ".chrome{display:flex;align-items:center;justify-content:space-between;padding:12px 18px;border-bottom:1px solid var(--line);font-size:11px;letter-spacing:.24em;text-transform:uppercase;color:var(--dim);background:rgba(0,0,0,.35)}"
    ∷ ".chrome .path{color:var(--ink)}.chrome .path .slash{color:var(--mg)}"
    ∷ ".lights{display:inline-flex;gap:6px;margin-right:14px}"
    ∷ ".lights i{display:inline-block;width:9px;height:9px;border:1px solid var(--line-hot)}"
    ∷ ".lights i:nth-child(1){background:rgba(255,43,214,.55);border-color:rgba(255,43,214,.7);box-shadow:0 0 8px rgba(255,43,214,.6)}"
    ∷ ".lights i:nth-child(2){background:rgba(255,182,72,.55);border-color:rgba(255,182,72,.7)}"
    ∷ ".lights i:nth-child(3){background:rgba(54,255,178,.55);border-color:rgba(54,255,178,.7);box-shadow:0 0 8px rgba(54,255,178,.4)}"
    ∷ ".wbody{padding:20px 22px}"
    ∷ ".io{display:flex;align-items:center;justify-content:space-between;gap:14px;padding:14px 0;border-bottom:1px solid var(--line)}"
    ∷ ".io:last-child{border-bottom:none}"
    ∷ ".io .lbl{font-size:13px;letter-spacing:.04em}.io .lbl small{display:block;font-size:10px;letter-spacing:.2em;text-transform:uppercase;color:var(--dimmer);margin-top:3px}"
    ∷ ".pill{display:inline-flex;align-items:center;gap:8px;font-size:11px;font-weight:700;letter-spacing:.18em;text-transform:uppercase;padding:6px 12px;border:1px solid var(--line-hot);background:rgba(0,231,255,.05)}"
    ∷ ".pill.on{color:var(--gr);border-color:rgba(54,255,178,.5);background:rgba(54,255,178,.07);box-shadow:0 0 14px rgba(54,255,178,.18),inset 0 0 12px rgba(54,255,178,.08)}"
    ∷ ".pill.off{color:var(--dim);border-color:var(--line-hot);background:rgba(0,0,0,.25)}"
    ∷ ".dot{width:7px;height:7px;border-radius:50%;background:currentColor;box-shadow:0 0 8px currentColor}"
    ∷ ".kv{display:flex;justify-content:space-between;align-items:center;padding:11px 0;border-bottom:1px solid var(--line);font-size:12px}"
    ∷ ".kv:last-child{border-bottom:none}"
    ∷ ".kv .k{color:var(--dim);letter-spacing:.14em;text-transform:uppercase;font-size:11px}"
    ∷ ".kv .v{font-weight:500;font-variant-numeric:tabular-nums;color:var(--ink)}"
    ∷ ".sec{font-size:10px;font-weight:700;color:var(--cy);text-transform:uppercase;letter-spacing:.24em;margin:22px 0 10px;display:flex;align-items:center;gap:10px}"
    ∷ ".sec::after{content:'';flex:1;height:1px;background:linear-gradient(to right,var(--line-hot),transparent)}"
    ∷ ".sec.first{margin-top:0}"
    ∷ "label{display:block;font-size:10px;font-weight:600;color:var(--dim);letter-spacing:.18em;text-transform:uppercase;margin:12px 0 5px}"
    ∷ "input[type=text],input[type=number],input[type=password]{width:100%;font:inherit;font-size:14px;padding:10px 12px;border:1px solid var(--line-hot);background:rgba(0,0,0,.35);color:var(--ink)}"
    ∷ "input:focus{outline:0;border-color:var(--cy);background:rgba(0,231,255,.04);box-shadow:0 0 0 1px var(--cy),inset 0 0 18px rgba(0,231,255,.06)}"
    ∷ ".row{display:flex;gap:12px}.row>div{flex:1}"
    ∷ ".btn{appearance:none;cursor:pointer;font:inherit;font-size:12px;font-weight:600;letter-spacing:.24em;text-transform:uppercase;padding:14px 22px;background:transparent;color:var(--cy);border:1px solid var(--cy);position:relative;transition:all .2s ease;display:inline-flex;align-items:center;justify-content:center;gap:10px;width:100%}"
    ∷ ".btn::before,.btn::after{content:'';position:absolute;width:8px;height:8px;border:1px solid currentColor}"
    ∷ ".btn::before{top:-1px;left:-1px;border-right:none;border-bottom:none}"
    ∷ ".btn::after{bottom:-1px;right:-1px;border-left:none;border-top:none}"
    ∷ ".btn:hover{background:rgba(0,231,255,.12);box-shadow:0 0 20px rgba(0,231,255,.3),inset 0 0 18px rgba(0,231,255,.1)}"
    ∷ ".btn.save{color:#fff;border-color:var(--mg);background:linear-gradient(180deg,rgba(255,43,214,.16),rgba(255,43,214,.04));box-shadow:0 0 22px rgba(255,43,214,.25),inset 0 0 30px rgba(255,43,214,.12);margin-top:24px}"
    ∷ ".btn.save:hover{background:rgba(255,43,214,.22);box-shadow:0 0 26px rgba(255,43,214,.4)}"
    ∷ ".btn.reboot{color:var(--mg);border-color:rgba(255,43,214,.5)}"
    ∷ ".btn.reboot:hover{background:rgba(255,43,214,.1);box-shadow:0 0 20px rgba(255,43,214,.3)}"
    ∷ ".foot{padding:16px 18px;border-top:1px solid var(--line);display:flex;gap:12px;background:rgba(0,0,0,.35)}"
    ∷ "@media(max-width:520px){.foot{flex-direction:column}.specs{grid-template-columns:repeat(2,1fr)}.spec:nth-child(2){border-right:none}}"
    ∷ ".toast{position:fixed;bottom:24px;left:50%;transform:translateX(-50%);background:var(--bg2);border:1px solid var(--mg);color:var(--ink);padding:12px 24px;font-size:11px;font-weight:600;letter-spacing:.16em;text-transform:uppercase;z-index:999;opacity:0;transition:opacity .3s;box-shadow:0 0 24px rgba(255,43,214,.3)}"
    ∷ ".toast.show{opacity:1}" ∷ "</style></head><body>"
    ∷ "<div class='gridlines'></div><div class='scanlines'></div><div class='grain'></div><div class='vignette'></div>"
    ∷ [])
