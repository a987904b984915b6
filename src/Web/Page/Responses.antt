-- ===== src/Web/Page/Responses.antt =====
-- src/web.rs: the heads of the responses, and the short responses.
use jzf407_rust.Prelude.{[], ◌∷◌, Bytes}
use jzf407_rust.Text.{text, texts}

unfoldable pub http_ok_text : Bytes
http_ok_text =
    text "HTTP/1.1 200 OK\r\nContent-Type: text/html; charset=utf-8\r\nConnection: close\r\n\r\n"

unfoldable pub http_ok_json_text : Bytes
http_ok_json_text =
    text
      "HTTP/1.1 200 OK\r\nContent-Type: application/json\r\nCache-Control: no-store\r\nConnection: close\r\n\r\n"

unfoldable pub http_303_home_text : Bytes
http_303_home_text = text "HTTP/1.1 303 See Other\r\nLocation: /\r\nConnection: close\r\n\r\n"

unfoldable pub http_303_logout_text : Bytes
http_303_logout_text = texts (
    "HTTP/1.1 303 See Other\r\n"
    ∷ "Set-Cookie: jzf_session=; Path=/; Max-Age=0; Expires=Thu, 01 Jan 1970 00:00:00 GMT; HttpOnly; SameSite=Strict\r\n"
    ∷ "Location: /login\r\nConnection: close\r\n\r\n" ∷ [])

unfoldable pub http_400_text : Bytes
http_400_text = text "HTTP/1.1 400 Bad Request\r\nConnection: close\r\n\r\nBad Request"

unfoldable pub http_404_text : Bytes
http_404_text = text "HTTP/1.1 404 Not Found\r\nConnection: close\r\n\r\nNot Found"

unfoldable pub http_500_text : Bytes
http_500_text =
    text
      "HTTP/1.1 500 Internal Server Error\r\nContent-Type: text/html; charset=utf-8\r\nConnection: close\r\n\r\n<html><body><p>EEPROM write failed — config NOT saved. <a href=/>back</a></p></body></html>"

unfoldable pub http_401_login_text : Bytes
http_401_login_text =
    text
      "HTTP/1.1 401 Unauthorized\r\nContent-Type: text/html; charset=utf-8\r\nConnection: close\r\n\r\n"

unfoldable pub http_401_expire_cookie_text : Bytes
http_401_expire_cookie_text = texts (
    "HTTP/1.1 401 Unauthorized\r\n"
    ∷ "Set-Cookie: jzf_session=; Path=/; Max-Age=0; Expires=Thu, 01 Jan 1970 00:00:00 GMT; HttpOnly; SameSite=Strict\r\n"
    ∷ "Content-Type: text/html; charset=utf-8\r\nConnection: close\r\n\r\n" ∷ [])
