-- ===== src/Auth/Tests.antt =====
-- Tokens of concrete credentials, and the theorems at them.
use jzf407_rust.Prelude.{◌≡◌, refl}
use jzf407_rust.Text.{codes}
use jzf407_rust.Auth.{raw, push_all, encode, basic_token}

token_admin : basic_token (codes "admin") (codes "pass") ≡ codes "YWRtaW46cGFzcw=="
unfolding basic_token raw push_all encode
token_admin = refl
