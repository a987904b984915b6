-- ===== src/Web/Request/Cookie.antt =====
-- src/web.rs: the lines of a request, and the cookie in the one that a browser makes.
use jzf407_rust.Prelude.{
  All-map, ℕ, ◌≤◌, ◌<◌, ◌≡◌, ◌≢◌, refl, ap, some, List, [], ◌∷◌, ◌++◌, Bytes, All, All-append,
  arith, bytes_eq, ◌==◌, Bool-cases, inl, inr,
}
use jzf407_rust.Text.{codes}
use jzf407_rust.Text.Utf8.{is_continuation}
use jzf407_rust.Text.Utf8.Trim.{Printable, trim-Printable, trim-blank, trim_start-Printable}
use jzf407_rust.Text.Split.{Avoids, split, split_part, split_last, strip_prefix}
use jzf407_rust.Web.{value}
use jzf407_rust.Web.Request.{
  strip_cr, lines_of, lines, is_char_boundary, eq_ignore_ascii_case, cookie_in, find_cookie,
  extract_cookie,
}

-- Each line with the `\r\n` that ends it.
abbrev pub crlf_lines : List Bytes → Bytes
crlf_lines [] = []
crlf_lines (l ∷ ls) = (l ++ (b'\r' ∷ [])) ++ (b'\n' ∷ crlf_lines ls)

strip_cr-snoc : (s : Bytes) → strip_cr (s ++ (b'\r' ∷ [])) ≡ s
unfolding strip_cr
strip_cr-snoc [] = refl
strip_cr-snoc (b ∷ []) = refl
strip_cr-snoc (b ∷ c ∷ s) = ap (◌∷◌ b) (strip_cr-snoc (c ∷ s))

-- A text has a first part.
split-first : (sep : ℕ) (s : Bytes) → (q : Bytes) × (qs : List Bytes) × (split sep s ≡ q ∷ qs)
unfolding split
split-first sep [] = ([], [], refl)
split-first sep (b ∷ s) =
    let (q, qs, e) = split-first sep s in
    elim (Bool-cases (b == sep)) [
      | inl h ↦ ([], split sep s, rw h refl)
      | inr h ↦ (b ∷ q, qs, rw (h, e) refl)
    ]

-- A part in front of others ended in `\n`.
lines_of-split :
    (p s : Bytes) → lines_of (p ∷ split b'\n' s) ≡ strip_cr p ∷ lines_of (split b'\n' s)
unfolding lines_of
lines_of-split p s = let (q, qs, e) = split-first b'\n' s in rw e refl

-- The lines are read back, if none has a `\n`.
pub lines-crlf_lines : (ls : List Bytes) → All (Avoids b'\n') ls → lines (crlf_lines ls) ≡ ls
unfolding lines lines_of split
lines-crlf_lines [] h = refl
lines-crlf_lines (l ∷ ls) h =
    let whole : Avoids b'\n' (l ++ (b'\r' ∷ [])) =
      All-append (λ b. b ≢ b'\n') l (b'\r' ∷ []) h.0 (omega arith) in
    rw
      (
        split_part b'\n' (l ++ (b'\r' ∷ [])) (crlf_lines ls) whole,
        lines_of-split (l ++ (b'\r' ∷ [])) (crlf_lines ls),
        strip_cr-snoc l,
      )
      (ap (◌∷◌ l) (lines-crlf_lines ls h.1))

-- A request for the home page with one cookie, as a browser writes it.
abbrev pub home_with_cookie : Bytes → Bytes
home_with_cookie cookie =
    crlf_lines
      (codes "GET / HTTP/1.1" ∷ codes "Host: jzf407" ∷ (codes "Cookie: " ++ cookie) ∷ [] ∷ [])

Printable-Avoids : (sep : ℕ) (s : Bytes) → Printable s → sep ≤ 32 → Avoids sep s
Printable-Avoids sep s h small =
    All-map (λ b. (33 ≤ b) × (b < 0x80)) (λ b. b ≢ sep) (λ b k e. omega (arith, k, small)) s h

pub home_lines :
    (cookie : Bytes)
    → Printable cookie
    → lines (home_with_cookie cookie)
      ≡ codes "GET / HTTP/1.1" ∷ codes "Host: jzf407" ∷ (codes "Cookie: " ++ cookie) ∷ [] ∷ []
home_lines cookie h =
    lines-crlf_lines
      (codes "GET / HTTP/1.1" ∷ codes "Host: jzf407" ∷ (codes "Cookie: " ++ cookie) ∷ [] ∷ [])
      (
        omega arith,
        (
          omega arith,
          (
            All-append (λ b. b ≢ b'\n') (codes "Cookie: ") cookie (omega arith)
                (Printable-Avoids b'\n' cookie h (omega arith)),
            (tt, tt),
          ),
        ),
      )

strip_prefix-append : (front s : Bytes) → strip_prefix front (front ++ s) ≡ some s
unfolding strip_prefix
strip_prefix-append [] s = refl
strip_prefix-append (b ∷ front) s = ground (arith, strip_prefix-append front s)

-- The text of a cookie.
abbrev pub named : Bytes → Bytes → Bytes
named name val = name ++ (b'=' ∷ val)

-- The one cookie is found by its name.
cookie_in-one :
    (name val : Bytes)
    → Printable (named name val)
    → Printable val
    → Avoids b';' (named name val)
    → cookie_in name (split b';' (named name val)) ≡ some val
unfolding cookie_in
cookie_in-one name val h v one =
    rw
      (
        split_last b';' (named name val) one,
        trim-Printable (named name val) h,
        strip_prefix-append name (b'=' ∷ val),
        trim_start-Printable (b'=' ∷ val) ((omega arith, omega arith), v),
        strip_prefix-append (b'=' ∷ []) val,
        trim-Printable val v,
      )
      refl

-- The server reads the value of the cookie that a browser sends, if name and value are printable
-- ASCII without `;`.
pub extract_cookie-home :
    (name val : Bytes)
    → Printable name
    → Printable val
    → Avoids b';' name
    → Avoids b';' val
    → extract_cookie (home_with_cookie (named name val)) name ≡ value (some val)
unfolding extract_cookie find_cookie is_char_boundary is_continuation eq_ignore_ascii_case bytes_eq
extract_cookie-home name val n v n' v' =
    let whole : Printable (named name val) =
      All-append (λ b. (33 ≤ b) × (b < 0x80)) name (b'=' ∷ val) n ((omega arith, omega arith), v) in
    let one : Avoids b';' (named name val) =
      All-append (λ b. b ≢ b';') name (b'=' ∷ val) n' (omega arith, v') in
    rw
      (
        home_lines (named name val) whole,
        trim-blank (named name val) whole,
        cookie_in-one name val whole v one,
      )
      (ground arith)
