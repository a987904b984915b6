-- ===== src/Web/Page/LoginTexts.antt =====
-- src/web.rs: the texts of the login page.
use jzf407_rust.Prelude.{[], ◌∷◌, Bytes}
use jzf407_rust.Text.{text, texts}

unfoldable pub login_head : Bytes
login_head = texts (
    "<!DOCTYPE html><html lang='en'><head><meta charset='utf-8'>"
    ∷ "<meta name='viewport' content='width=device-width,initial-scale=1'><title>JZF407 // AUTH</title>"
    ∷ "<link rel='preconnect' href='https://fonts.gstatic.com' crossorigin>"
    ∷ "<link href='https://fonts.googleapis.com/css2?family=JetBrains+Mono:wght@400;500;700;800&display=swap' rel='stylesheet'>"
    ∷ "<style>"
    ∷ ":root{--bg:#05060a;--bg2:#090b14;--ink:#e8f6ff;--dim:#6a7891;--dimmer:#3a445a;--line:#18253b;--line-hot:#1f3a6b;--cy:#00e7ff;--mg:#ff2bd6;--no:#ff6ae3}"
    ∷ "*{box-sizing:border-box;margin:0;padding:0}"
    ∷ "html,body{background:var(--bg);color:var(--ink);font-family:'JetBrains Mono',ui-monospace,Menlo,Consolas,monospace}"
    ∷ "body{display:flex;align-items:center;justify-content:center;min-height:100vh;padding:16px;overflow:hidden;background:radial-gradient(1000px 600px at 80% -10%,rgba(255,43,214,.12),transparent),radial-gradient(800px 500px at -10% 10%,rgba(0,231,255,.12),transparent),var(--bg)}"
    ∷ ".scanlines{position:fixed;inset:0;pointer-events:none;z-index:50;background:repeating-linear-gradient(to bottom,rgba(255,255,255,.025) 0 1px,transparent 1px 3px);mix-blend-mode:overlay;opacity:.6}"
    ∷ ".vignette{position:fixed;inset:0;pointer-events:none;z-index:50;background:radial-gradient(120% 80% at 50% 50%,transparent 55%,rgba(0,0,0,.65) 100%)}"
    ∷ ".box{position:relative;z-index:10;width:100%;max-width:380px;border:1px solid var(--line-hot);background:linear-gradient(180deg,rgba(0,231,255,.04),rgba(0,0,0,0) 40%),var(--bg2);box-shadow:0 0 0 1px rgba(0,231,255,.06),0 30px 80px rgba(0,0,0,.6),inset 0 0 60px rgba(0,231,255,.03)}"
    ∷ ".box::before,.box::after,.box>.bk1,.box>.bk2{content:'';position:absolute;width:12px;height:12px;border:1px solid var(--cy)}"
    ∷ ".box::before{top:-1px;left:-1px;border-right:none;border-bottom:none}"
    ∷ ".box::after{top:-1px;right:-1px;border-left:none;border-bottom:none}"
    ∷ ".box>.bk1{bottom:-1px;left:-1px;border-right:none;border-top:none}"
    ∷ ".box>.bk2{bottom:-1px;right:-1px;border-left:none;border-top:none}"
    ∷ ".chrome{display:flex;align-items:center;justify-content:space-between;padding:12px 18px;border-bottom:1px solid var(--line);font-size:11px;letter-spacing:.24em;text-transform:uppercase;color:var(--dim);background:rgba(0,0,0,.35)}"
    ∷ ".chrome .slash{color:var(--mg)}" ∷ ".body{padding:30px 28px}"
    ∷ ".body h1{font-size:30px;font-weight:800;letter-spacing:-.03em;margin-bottom:4px}"
    ∷ ".body h1 .ac{color:transparent;-webkit-text-stroke:1px var(--cy);text-shadow:0 0 18px rgba(0,231,255,.4)}"
    ∷ ".body .sub{color:var(--dim);font-size:11px;letter-spacing:.2em;text-transform:uppercase;margin-bottom:24px}"
    ∷ ".err{color:var(--no);border:1px solid rgba(255,43,214,.4);background:rgba(255,43,214,.07);padding:10px 14px;font-size:11px;font-weight:600;letter-spacing:.1em;text-transform:uppercase;margin-bottom:16px}"
    ∷ "label{display:block;font-size:10px;font-weight:600;color:var(--dim);letter-spacing:.18em;text-transform:uppercase;margin:0 0 5px}"
    ∷ "input{display:block;width:100%;font:inherit;font-size:14px;padding:11px 13px;border:1px solid var(--line-hot);background:rgba(0,0,0,.35);color:var(--ink);margin-bottom:14px}"
    ∷ "input:focus{outline:0;border-color:var(--cy);background:rgba(0,231,255,.04);box-shadow:0 0 0 1px var(--cy),inset 0 0 18px rgba(0,231,255,.06)}"
    ∷ "input::placeholder{color:var(--dimmer)}"
    ∷ "button{position:relative;width:100%;font:inherit;font-weight:600;font-size:12px;letter-spacing:.24em;text-transform:uppercase;border:1px solid var(--mg);padding:14px;cursor:pointer;color:#fff;background:linear-gradient(180deg,rgba(255,43,214,.16),rgba(255,43,214,.04));box-shadow:0 0 22px rgba(255,43,214,.25),inset 0 0 30px rgba(255,43,214,.12);transition:all .2s ease;margin-top:6px}"
    ∷ "button:hover{background:rgba(255,43,214,.24);box-shadow:0 0 26px rgba(255,43,214,.45)}"
    ∷ "button::before,button::after{content:'';position:absolute;width:8px;height:8px;border:1px solid #fff}"
    ∷ "button::before{top:-1px;left:-1px;border-right:none;border-bottom:none}"
    ∷ "button::after{bottom:-1px;right:-1px;border-left:none;border-top:none}"
    ∷ "</style></head><body><div class='scanlines'></div><div class='vignette'></div>"
    ∷ "<div class='box'><span class='bk1'></span><span class='bk2'></span>"
    ∷ "<div class='chrome'><span>auth<span class='slash'>/</span>session</span><span>JZF407</span></div>"
    ∷ "<div class='body'><h1>JZF<span class='ac'>407</span></h1>"
    ∷ "<p class='sub'>// authorization required</p>" ∷ [])

unfoldable pub login_error_text : Bytes
login_error_text = text "<div class='err'>✕ Invalid username or password</div>"

unfoldable pub login_locked_text : Bytes
login_locked_text = text "<div class='err'>⚠ Too many failed attempts — locked for 60s</div>"

unfoldable pub login_tail : Bytes
login_tail = texts (
    "<form method='post' action='/login'>"
    ∷ "<label>Username</label><input type='text' name='user' placeholder='user' autocomplete='username' required>"
    ∷ "<label>Password</label><input type='password' name='pass' placeholder='••••••' autocomplete='current-password' required>"
    ∷ "<button type='submit'>▸ Authenticate</button>" ∷ "</form></div></div></body></html>" ∷ [])
