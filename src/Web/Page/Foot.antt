-- ===== src/Web/Page/Foot.antt =====
-- src/web.rs: `PAGE_FOOT`, the script of the dashboard.
use jzf407_rust.Prelude.{[], ◌∷◌, Bytes}
use jzf407_rust.Text.{texts}

unfoldable pub page_foot : Bytes
page_foot = texts (
    "<script>" ∷ "function g(i){return document.getElementById(i)}"
    ∷ "function pl(i,o,t){var e=g(i);if(e){e.className='pill '+(o?'on':'off');e.innerHTML=\"<span class='dot'></span>\"+t}}"
    ∷ "function tx(i,v){var e=g(i);if(e){e.textContent=v}}" ∷ "function z(n){return(n<10?'0':'')+n}"
    ∷ "function fu(n){var d=n/86400|0,h=n%86400/3600|0,m=n%3600/60|0,s=n%60;return (d?d+'d ':'')+z(h)+':'+z(m)+':'+z(s)}"
    ∷ "function clock(){var n=new Date();tx('clk',z(n.getHours())+':'+z(n.getMinutes())+':'+z(n.getSeconds()))}"
    ∷ "var loggingOut=false;"
    ∷ "function toLogin(){if(loggingOut)return;loggingOut=true;location.href='/login'}"
    ∷ "var IDLE_TIMEOUT=900,lastActivity=Date.now();" ∷ "var upBase=0,upAt=0;"
    ∷ "function apply(s){pl('rp',s.relay,s.relay?'ON':'OFF');pl('l1',s.led1,'LED1');pl('l2',s.led2,'LED2');pl('lk',s.link,s.link?'Up':'Down');pl('mq',s.mqtt,s.mqtt?'Online':'Offline');if(s.ip!==undefined)tx('ip',s.ip);if(s.up!==undefined){upBase=s.up;upAt=Date.now()}}"
    ∷ "function resetIdle(){lastActivity=Date.now();if(g('toast'))g('toast').className='toast'}"
    ∷ "['mousemove','keydown','touchstart','scroll','click'].forEach(function(e){document.addEventListener(e,resetIdle,{passive:true})});"
    ∷ "function doLogout(){if(loggingOut)return;loggingOut=true;var f=document.createElement('form');f.method='post';f.action='/logout';document.body.appendChild(f);f.submit()}"
    ∷ "var sseUp=false,es=null;"
    ∷ "function sse(){if(loggingOut||!window.EventSource)return;try{es=new EventSource('/events')}catch(e){return}"
    ∷ "es.onopen=function(){sseUp=true};"
    ∷ "es.onmessage=function(m){try{apply(JSON.parse(m.data))}catch(e){}};"
    ∷ "es.onerror=function(){sseUp=false;try{es.close()}catch(e){}es=null;setTimeout(sse,3000)}}"
    ∷ "function poll(){if(loggingOut||sseUp)return;var a=(Date.now()-lastActivity)/1000<30?'?active=1':'';fetch('/state'+a,{credentials:'same-origin'}).then(function(r){if(r.status===401){toLogin();return null}return r.ok?r.json():null}).then(function(s){if(s)apply(s)}).catch(function(){})}"
    ∷ "setInterval(function(){" ∷ "clock();"
    ∷ "if(upAt)tx('up',fu(upBase+Math.floor((Date.now()-upAt)/1000)));" ∷ "if(loggingOut)return;"
    ∷ "poll();" ∷ "var idle=(Date.now()-lastActivity)/1000;" ∷ "if(idle>=IDLE_TIMEOUT){doLogout()}"
    ∷ "else if(idle>=IDLE_TIMEOUT-60&&g('toast')){g('toast').className='toast show';g('toast').textContent='Session expires in '+(IDLE_TIMEOUT-Math.floor(idle))+'s — move mouse to stay'}"
    ∷ "},1000);" ∷ "clock();sse();poll();"
    ∷ "</script><div id='toast' class='toast'></div></body></html>" ∷ [])
