-- ===== src/WebForm/Decode.antt =====
-- Decoding against the relation "this text is an encoding of those bytes", in both directions.
use jzf407_rust.Prelude.{
  ℕ, ◌+◌, ◌*◌, ◌≤◌, ◌<◌, ◌≡◌, ◌≢◌, ◌↔◌, ◌⊎◌, inl, inr, refl, sym, ap, ◌∙◌, subst, some, [], ◌∷◌,
  ◌++◌, Bytes, length, length-append, append_assoc, append-nil, arith, Option-cases, ◌==◌,
  if◌then◌else◌,
}
use jzf407_rust.Text.Utf8.{IsField}
use jzf407_rust.WebForm.Encoding.{
  HexOf, Encodes, nil, plain, hex, hex_digit-HexOf, HexOf-hex_digit, HexOf-lt, hex_byte_lem,
  hex_byte_lem, loop_plain, >>=-eq-ok,
}
use jzf407_rust.WebForm.{
  ok, ◌>>=◌, push_str, hex_digit, hex_byte, push_plain, push_hex, decode_loop, finish_decode,
  form_url_decode,
}

-- What the loop gives on success: the bytes so far, and those that the rest encodes.
record Decoded (n : ℕ) (out s r : Bytes) : Type 0 where
  tail : Bytes
  result : r ≡ out ++ tail
  fits : length r ≤ n
  encodes : Encodes s tail

push_str-ok :
    (n : ℕ) (out s r : Bytes)
    → push_str n out s ≡ ok r
    → (r ≡ out ++ s) × (length out + length s ≤ n)
unfolding push_str
push_str-ok n out s r h = ground arith

push_str_fits :
    (n : ℕ) (out s : Bytes) → length out + length s ≤ n → push_str n out s ≡ ok (out ++ s)
unfolding push_str
push_str_fits n out s h = ground arith

-- One step in front of a decoded rest, `c` being the byte that the step puts out.
Decoded-cons :
    (n c : ℕ) (out s s' r : Bytes)
    → ((t : Bytes) → Encodes s t → Encodes s' (c ∷ t))
    → Decoded n (out ++ c ∷ []) s r
    → Decoded n out s' r
Decoded-cons n c out s s' r step d = record {
  tail = c ∷ d.tail;
  result = d.result ∙ append_assoc out (c ∷ []) d.tail;
  fits = d.fits;
  encodes = step d.tail d.encodes;
}

Sound : ℕ → Bytes → Type 0
Sound n s = (out r : Bytes) → length out ≤ n → decode_loop n out s ≡ ok r → Decoded n out s r

length-snoc : (out : Bytes) (c : ℕ) → length (out ++ c ∷ []) ≡ length out + 1
length-snoc out c = omega (arith, length-append out (c ∷ []))

plain-Sound : (n b : ℕ) (s : Bytes) → b ≢ b'%' → Sound n s → Sound n (b ∷ s)
unfolding Sound push_plain
plain-Sound n b s h ih out r fit e =
    let c : ℕ = if b == b'+' then b' ' else b in
    let (out', pushed, later) =
      >>=-eq-ok (push_plain n out b) (λ o. decode_loop n o s) (sym (loop_plain n b out s h) ∙ e) in
    let (same, room) = push_str-ok n out (c ∷ []) out' pushed in
    let fit' : length (out ++ c ∷ []) ≤ n = omega (arith, length-snoc out c) in
    Decoded-cons n c out s (b ∷ s) r (λ t k. plain h refl k)
      (ih (out ++ c ∷ []) r fit' (rw same at later))

loop_hex :
    (n b x y : ℕ) (out s : Bytes)
    → b ≡ b'%'
    → decode_loop n out (b ∷ x ∷ y ∷ s) ≡ (push_hex n out x y >>= λ out'. decode_loop n out' s)
unfolding decode_loop
loop_hex n b x y out s h = rw h

push_hex-ok :
    (n x y : ℕ) (out o : Bytes)
    → push_hex n out x y ≡ ok o
    → (h : ℕ) × (l : ℕ) × (hex_digit x ≡ some h)
      × (hex_digit y ≡ some l)
      × (push_str n out (hex_byte h l ∷ []) ≡ ok o)
unfolding push_hex
push_hex-ok n x y out o e = elim (Option-cases (hex_digit x)) [
  | inl ex ↦ cc (rw (ex, push_hex) at e)
  | inr (h, ex) ↦ elim (Option-cases (hex_digit y)) [
    | inl ey ↦ cc (rw (ex, ey, push_hex) at e)
    | inr (l, ey) ↦ (h, l, ex, ey, rw (ex, ey, push_hex) at e)
  ]
]

hex-Sound : (n b x y : ℕ) (s : Bytes) → b ≡ b'%' → Sound n s → Sound n (b ∷ x ∷ y ∷ s)
unfolding Sound
hex-Sound n b x y s p ih out r fit e =
    let (out', pushed, later) =
      >>=-eq-ok (push_hex n out x y) (λ o. decode_loop n o s)
        (sym (loop_hex n b x y out s p) ∙ e) in
    let (h, l, ex, ey, stored) = push_hex-ok n x y out out' pushed in
    let (same, room) = push_str-ok n out (hex_byte h l ∷ []) out' stored in
    let hx = hex_digit-HexOf x h ex in
    let hy = hex_digit-HexOf y l ey in
    let value = hex_byte_lem h l (HexOf-lt x h hx) (HexOf-lt y l hy) in
    let fit' : length (out ++ hex_byte h l ∷ []) ≤ n =
      omega (arith, length-snoc out (hex_byte h l)) in
    Decoded-cons n (hex_byte h l) out s (b ∷ x ∷ y ∷ s) r (λ t k. hex h l p hx hy value k)
      (ih (out ++ hex_byte h l ∷ []) r fit' (rw same at later))

stopped-Sound : (n b : ℕ) (s : Bytes) → b ≡ b'%' → length s < 2 → Sound n (b ∷ s)
unfolding Sound decode_loop
stopped-Sound n b [] p h out r fit e = cc (rw p at e)
stopped-Sound n b (x ∷ []) p h out r fit e = cc (rw p at e)
stopped-Sound n b (x ∷ y ∷ s) p h out r fit e = absurd (omega arith)

byte-cases : (b c : ℕ) → (b ≡ c) ⊎ (b ≢ c)
byte-cases b c = ground arith

nil-Sound : (n : ℕ) → Sound n []
unfolding Sound decode_loop
nil-Sound n out r fit e = record {
  tail = [];
  result = cc (append-nil out);
  fits = ground arith;
  encodes = nil;
}

loop-Sound : (n : ℕ) (s : Bytes) → Sound n s
loop-Sound n [] = nil-Sound n
loop-Sound n (b ∷ []) = elim (byte-cases b b'%') [
  | inl p ↦ stopped-Sound n b [] p (omega arith)
  | inr p ↦ plain-Sound n b [] p (nil-Sound n)
]
loop-Sound n (b ∷ x ∷ []) = elim (byte-cases b b'%') [
  | inl p ↦ stopped-Sound n b (x ∷ []) p (omega arith)
  | inr p ↦ plain-Sound n b (x ∷ []) p (loop-Sound n (x ∷ []))
]
loop-Sound n (b ∷ x ∷ y ∷ rest) = elim (byte-cases b b'%') [
  | inl p ↦ hex-Sound n b x y rest p (loop-Sound n rest)
  | inr p ↦ plain-Sound n b (x ∷ y ∷ rest) p (loop-Sound n (x ∷ y ∷ rest))
]

push_plain_fits :
    (n b c : ℕ) (out : Bytes)
    → c ≡ (if b == b'+' then b' ' else b)
    → length out + 1 ≤ n
    → push_plain n out b ≡ ok (out ++ c ∷ [])
unfolding push_plain
push_plain_fits n b c out e h = rw e (push_str_fits n out _ (omega arith))

push_hex_fits :
    (n x y h l : ℕ) (out : Bytes)
    → HexOf h x
    → HexOf l y
    → length out + 1 ≤ n
    → push_hex n out x y ≡ ok (out ++ (h * 16 + l) ∷ [])
unfolding push_hex
push_hex_fits n x y h l out hx hy room =
    rw (HexOf-hex_digit x h hx, HexOf-hex_digit y l hy)
      (rw (← hex_byte_lem h l (HexOf-lt x h hx) (HexOf-lt y l hy))
        (push_str_fits n out _ (omega arith)))

loop_complete :
    {s t : Bytes} (n : ℕ) (out : Bytes)
    → Encodes s t
    → length out + length t ≤ n
    → decode_loop n out s ≡ ok (out ++ t)
loop_complete n out nil h = (unfold decode_loop in ap ok (sym (append-nil out)))
loop_complete n out (plain {b} {c} {s} {t} p e k) h =
    let room : length (out ++ c ∷ []) + length t ≤ n = omega (arith, length-snoc out c) in
    loop_plain n b out s p
    ∙ rw (push_plain_fits n b c out e (omega arith))
        (loop_complete n (out ++ c ∷ []) k room ∙ ap ok (append_assoc out (c ∷ []) t))
loop_complete n out (hex {b} {x} {y} {c} {s} {t} u l p hx hy e k) h =
    let room : length (out ++ c ∷ []) + length t ≤ n = omega (arith, length-snoc out c) in
    loop_hex n b x y out s p
    ∙ rw (push_hex_fits n x y u l out hx hy (omega arith), ← e)
        (loop_complete n (out ++ c ∷ []) k room ∙ ap ok (append_assoc out (c ∷ []) t))

finish-ok : (n : ℕ) (b t : Bytes) → finish_decode n b ≡ ok t → (b ≡ t) × IsField n t
unfolding finish_decode
finish-ok n b t e = ground arith

finish_field : (n : ℕ) (t : Bytes) → IsField n t → finish_decode n t ≡ ok t
unfolding finish_decode
finish_field n t f = ground arith

decode_sound : (n : ℕ) (s t : Bytes) → form_url_decode n s ≡ ok t → Encodes s t × IsField n t
unfolding form_url_decode Sound
decode_sound n s t e =
    let (bytes, looped, finished) = >>=-eq-ok (decode_loop n [] s) (finish_decode n) e in
    let d = loop-Sound n s [] bytes (omega arith) looped in
    let (same, field) = finish-ok n bytes t finished in
    (subst (Encodes s) (sym d.result ∙ same) d.encodes, field)

decode_complete : (n : ℕ) (s t : Bytes) → Encodes s t → IsField n t → form_url_decode n s ≡ ok t
unfolding form_url_decode
decode_complete n s t k f = rw (loop_complete n [] k (omega (arith, f.fits))) (finish_field n t f)

-- Decoding succeeds with `t` exactly when the form text is an encoding of `t`, and `t` fits the
-- capacity, holds no NUL and is valid UTF-8: nothing is cut off, and every other input is an error.
pub form_url_decode_iff :
    (n : ℕ) (s t : Bytes) → (form_url_decode n s ≡ ok t) ↔ (Encodes s t × IsField n t)
form_url_decode_iff n s t = (decode_sound n s t, λ h. decode_complete n s t h.0 h.1)
