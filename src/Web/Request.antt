-- ===== src/Web/Request.antt =====
-- src/web.rs: the parts of a request that the server reads.
pub mod Cookie
use jzf407_rust.Prelude.{
  ℕ, zero, suc, ◌+◌, Bool, true, false, not, ◌&&◌, ◌||◌, Option, none, some, List, [], ◌∷◌, ◌++◌,
  Bytes, length, take, drop, get_or, bytes_eq, ltb, leb, ◌==◌, if◌then◌else◌, unwrap_or, ◌>>=◌,
}
use jzf407_rust.Text.{codes}
use jzf407_rust.Text.Utf8.{chars, is_whitespace, is_continuation, trim, trim_start}
use jzf407_rust.Text.Split.{split, split_once, strip_prefix, after_first, contains_text}
use jzf407_rust.Web.{Run, panic, value}

-- A line that ended in `\n` loses a `\r` before it.
strip_cr : Bytes → Bytes
strip_cr [] = []
strip_cr (b ∷ []) = if b == 13 then [] else b ∷ []
strip_cr (b ∷ c ∷ rest) = b ∷ strip_cr (c ∷ rest)

-- The parts between the `\n`s: all but the last ended in one, and an empty last one is no line.
lines_of : List Bytes → List Bytes
unfolding strip_cr
lines_of [] = []
lines_of ([] ∷ []) = []
lines_of ((b ∷ last) ∷ []) = (b ∷ last) ∷ []
lines_of (p ∷ q ∷ ps) = strip_cr p ∷ lines_of (q ∷ ps)

-- `str::lines`
unfoldable pub lines : Bytes → List Bytes
unfolding lines_of
lines s = lines_of (split 10 s)

abbrev grow : Bool → Bytes → List Bytes → List Bytes
grow true g (w ∷ ws) = (g ++ w) ∷ ws
grow joins g ws = g ∷ ws

-- The words of a list of characters, and whether the first character belongs to one.
words_of : List Bytes → Bool × List Bytes
words_of [] = (false, [])
words_of (g ∷ gs) =
    let later = words_of gs in
    if is_whitespace g then (false, later.1) else (true, grow later.0 g later.1)

-- `str::split_whitespace`
unfoldable pub split_whitespace : Bytes → List Bytes
unfolding words_of
split_whitespace s = (words_of (chars s)).1

pub record ParsedRequest : Type 0 where
  pub raw : Bytes
  pub method : Bytes
  pub path : Bytes
  pub query : Bytes

abbrev nth_or : List Bytes → ℕ → Bytes → Bytes
nth_or [] n d = d
nth_or (x ∷ xs) zero d = x
nth_or (x ∷ xs) (suc n) d = nth_or xs n d

-- `ParsedRequest::new`
unfoldable pub parse_request : Bytes → ParsedRequest
parse_request raw =
    let first_line = nth_or (lines raw) 0 [] in
    let parts = split_whitespace first_line in
    let method = nth_or parts 0 [] in
    let target = nth_or parts 1 (codes "/") in
    let (path, query) = unwrap_or (split_once b'?' target) (target, []) in
    record { raw = raw; method = method; path = path; query = query }

unfoldable pub body : ParsedRequest → Option Bytes
body r = after_first (13 ∷ 10 ∷ 13 ∷ 10 ∷ []) r.raw

unfoldable pub refreshes_session : ParsedRequest → Bool
refreshes_session r =
    not (bytes_eq r.path (codes "/state") || bytes_eq r.path (codes "/events"))
    || contains_text (codes "active=1") r.query

-- `str::is_char_boundary`: where a slice may start or end.
unfoldable pub is_char_boundary : ℕ → Bytes → Bool
is_char_boundary n s = n == length s || (ltb n (length s) && not (is_continuation (get_or s n 0)))

abbrev to_ascii_lowercase : ℕ → ℕ
to_ascii_lowercase c = if leb b'A' c && leb c b'Z' then c + 32 else c

abbrev lowercase : Bytes → Bytes
lowercase [] = []
lowercase (c ∷ cs) = to_ascii_lowercase c ∷ lowercase cs

unfoldable pub eq_ignore_ascii_case : Bytes → Bytes → Bool
eq_ignore_ascii_case a b = bytes_eq (lowercase a) (lowercase b)

-- The value of one cookie, if it has the name.
abbrev cookie_value : Bytes → Bytes → Option Bytes
cookie_value name cookie = strip_prefix name (trim cookie) >>= λ rest.
    strip_prefix (b'=' ∷ []) (trim_start rest) >>= λ v. some (trim v)

-- The first answer, else the second.
abbrev pub or_else {ℓ} : {A : Type ℓ} → Option A → Option A → Option A
or_else none later = later
or_else (some x) later = some x

unfoldable pub cookie_in : Bytes → List Bytes → Option Bytes
cookie_in name [] = none
cookie_in name (c ∷ cs) = or_else (cookie_value name c) (cookie_in name cs)

abbrev or_later : Option Bytes → Run (Option Bytes) → Run (Option Bytes)
or_later none later = later
or_later (some v) later = value (some v)

-- The loop of `extract_cookie`. `line[..7]` panics where byte 7 is inside a character.
unfoldable pub find_cookie : Bytes → List Bytes → Run (Option Bytes)
find_cookie name [] = value none
find_cookie name (line ∷ rest) =
    let later = find_cookie name rest in
    if ltb (length line) 7
    then later
    else (if is_char_boundary 7 line
        then (if eq_ignore_ascii_case (take 7 line) (codes "cookie:")
            then or_later (cookie_in name (split b';' (trim (drop 7 line)))) later
            else later)
        else panic)

unfoldable pub extract_cookie : Bytes → Bytes → Run (Option Bytes)
extract_cookie req name = find_cookie name (lines req)
