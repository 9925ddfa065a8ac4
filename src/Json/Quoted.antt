-- ===== src/Json/Quoted.antt =====
-- `j_parse_str_raw` reads a quoted string of a document.
use qwanto.Base.{
  ℕ, zero, suc, ◌+◌, ◌*◌, ◌≤◌, ◌<◌, ◌≡◌, true, false, ◌||◌, ◌&&◌, some, List, [], ◌∷◌, ◌++◌, length,
  All, ◌==◌, arith, refl, ap, ◌∙◌, length-append, append_assoc, append_nil,
}
use qwanto.Json.{got, ◌>>=◌, skip_ws, is_space}
use qwanto.Json.Strings.{
  put, puts, escaped, digit, digits, unsigned_hex, signed_hex, strtoul16, utf8, low_half,
  code_point, unicode, escape, raw, string_raw, joined, is_high, is_low,
}
use qwanto.Json.Document.{
  encoded, Escape, letter, meaning, quotation, reverse_solidus, solidus, backspace, form_feed,
  line_feed, carriage_return, tab, Hex, IsHex, hex_char, Quad, IsQuad, quad_text, quad_value, Piece,
  plain, short, unit, pair, IsPiece, piece_text, piece_bytes, text_of, bytes_of, IsString,
}

put-fits : (tmp : List ℕ) (c : ℕ) → length tmp < 65535 → put tmp c ≡ tmp ++ (c ∷ [])
unfolding put
put-fits tmp c h = ground arith

puts-fits : (cs tmp : List ℕ) → length tmp + length cs ≤ 65535 → puts tmp cs ≡ tmp ++ cs
unfolding puts
puts-fits [] tmp h = append_nil tmp
puts-fits (c ∷ cs) tmp h =
    ap (λ z. puts z cs) (put-fits tmp c (omega arith))
    ∙ puts-fits cs (tmp ++ (c ∷ [])) (omega (arith, length-append tmp (c ∷ [])))
    ∙ append_assoc tmp (c ∷ []) cs

digit-hex_char : (h : Hex) → IsHex h → digit (hex_char h) ≡ some h.nibble
unfolding digit
digit-hex_char h v = ground arith

-- A digit is not skipped, no sign and no x.
hex_char-plain :
    (h : Hex)
    → IsHex h
    → is_space (hex_char h) ≡ false
      × (hex_char h == b'-') ≡ false
      × (hex_char h == b'+') ≡ false
      × ((hex_char h == b'x') || (hex_char h == b'X')) ≡ false
hex_char-plain h v = (ground arith, ground arith, ground arith, ground arith)

-- Four digits, the second of which is no x.
four_digits :
    (a b c d x y z w : ℕ)
    → is_space a ≡ false
    → (a == b'-') ≡ false
    → (a == b'+') ≡ false
    → ((b == b'x') || (b == b'X')) ≡ false
    → digit a ≡ some x
    → digit b ≡ some y
    → digit c ≡ some z
    → digit d ≡ some w
    → strtoul16 (a ∷ b ∷ c ∷ d ∷ []) ≡ ((x * 16 + y) * 16 + z) * 16 + w
unfolding strtoul16 skip_ws signed_hex unsigned_hex digits
four_digits a b c d x y z w blank minus plus no_x ha hb hc hd =
    let no_prefix : ((a == b'0') && ((b == b'x') || (b == b'X'))) ≡ false = ground arith in
    rw (blank, skip_ws, minus, plus, no_prefix)
      (rw (ha, digits, hb, digits, hc, digits, hd, digits) (omega arith))

strtoul16-quad_text : (q : Quad) → IsQuad q → strtoul16 (quad_text q) ≡ quad_value q
strtoul16-quad_text q v =
    let (a, b, c, d) = v in
    let (blank, minus, plus, x) = hex_char-plain q.h1 a in
    four_digits _ _ _ _ q.h1.nibble q.h2.nibble q.h3.nibble q.h4.nibble blank minus plus
      (hex_char-plain q.h2 b).3 (digit-hex_char q.h1 a) (digit-hex_char q.h2 b)
      (digit-hex_char q.h3 c) (digit-hex_char q.h4 d)

code_point-unit : (cp : ℕ) (p : List ℕ) → is_high cp ≡ false → code_point cp p ≡ got (cp, p)
unfolding code_point
code_point-unit cp [] h = refl
code_point-unit cp (x ∷ []) h = refl
code_point-unit cp (x ∷ y ∷ p) h = ground arith

code_point-pair :
    (hi : ℕ) (r : Quad) (p : List ℕ)
    → is_high hi ≡ true
    → IsQuad r
    → is_low (quad_value r) ≡ true
    → code_point hi (92 ∷ b'u' ∷ quad_text r ++ p) ≡ got (joined hi (quad_value r), p)
unfolding code_point low_half
code_point-pair hi r p high v low = rw (high, strtoul16-quad_text r v, low)

utf8-encoded : (cp : ℕ) → cp < 0x110000 → utf8 cp ≡ encoded cp
unfolding utf8 encoded
utf8-encoded cp h = ground arith

-- The case 'u' on four digits, where the code point behind them is read.
unicode-code_point :
    (tmp : List ℕ) (q : Quad) (p rest : List ℕ) (cp : ℕ)
    → IsQuad q
    → code_point (quad_value q) p ≡ got (cp, rest)
    → cp < 0x110000
    → length tmp + length (encoded cp) ≤ 65535
    → unicode tmp (quad_text q ++ p) ≡ got (tmp ++ encoded cp, rest)
unfolding unicode
unicode-code_point tmp q p rest cp v e valid fits =
    rw (strtoul16-quad_text q v, e, utf8-encoded cp valid, puts-fits (encoded cp) tmp fits)

-- One piece of a string goes into the buffer.
raw-piece :
    (n : ℕ) (tmp : List ℕ) (x : Piece) (rest : List ℕ)
    → IsPiece x
    → length tmp + length (piece_bytes x) ≤ 65535
    → raw (suc n) tmp (piece_text x ++ rest) ≡ raw n (tmp ++ piece_bytes x) rest
unfolding raw escape escaped
raw-piece n tmp (plain c) rest v fits =
    let no_quote : (c == 34) ≡ false = ground arith in
    let no_slash : (c == 92) ≡ false = ground arith in
    let stored = put-fits tmp c (omega arith) in rw (no_quote, raw, no_slash, raw, stored)
raw-piece n tmp (short e) rest v fits = raw-short e (omega arith)
  where
    raw-short :
        (e : Escape)
        → length tmp < 65535
        → raw (suc n) tmp (92 ∷ letter e ∷ rest) ≡ raw n (tmp ++ (meaning e ∷ [])) rest
    raw-short quotation h = ap (λ z. raw n z rest) (put-fits tmp 34 h)
    raw-short reverse_solidus h = ap (λ z. raw n z rest) (put-fits tmp 92 h)
    raw-short solidus h = ap (λ z. raw n z rest) (put-fits tmp b'/' h)
    raw-short backspace h = ap (λ z. raw n z rest) (put-fits tmp 8 h)
    raw-short form_feed h = ap (λ z. raw n z rest) (put-fits tmp 12 h)
    raw-short line_feed h = ap (λ z. raw n z rest) (put-fits tmp 10 h)
    raw-short carriage_return h = ap (λ z. raw n z rest) (put-fits tmp 13 h)
    raw-short tab h = ap (λ z. raw n z rest) (put-fits tmp 9 h)
raw-piece n tmp (unit q) rest v fits =
    let (a, b, c, d) = v.0 in
    let small : quad_value q < 0x110000 = omega arith in
    let no_high : is_high (quad_value q) ≡ false = ground arith in
    ap (λ r. r >>= λ x. raw n x.0 x.1)
      (unicode-code_point tmp q rest rest (quad_value q) v.0 (code_point-unit _ rest no_high) small
        fits)
raw-piece n tmp (pair q r) rest v fits =
    let (hq, hr, a, b, c, d) = v in
    let high : is_high (quad_value q) ≡ true = ground arith in
    let low : is_low (quad_value r) ≡ true = ground arith in
    ap (λ r. r >>= λ x. raw n x.0 x.1)
      (unicode-code_point tmp q (92 ∷ b'u' ∷ quad_text r ++ rest) rest _ hq
        (code_point-pair _ r rest high hr low) (omega arith) fits)

raw-text_of :
    (ps : List Piece) (n : ℕ) (tmp rest : List ℕ)
    → length ps < n
    → All IsPiece ps
    → length tmp + length (bytes_of ps) ≤ 65535
    → raw n tmp (text_of ps ++ (34 ∷ rest)) ≡ got (tmp ++ bytes_of ps, rest)
unfolding raw text_of bytes_of
raw-text_of ps zero tmp rest h v fits = elim h [ ]
raw-text_of [] (suc n) tmp rest h v fits = ap (λ z. got (z, rest)) (append_nil tmp)
raw-text_of (x ∷ ps) (suc n) tmp rest h v fits =
    ap (raw (suc n) tmp) (append_assoc (piece_text x) (text_of ps) (34 ∷ rest))
    ∙ raw-piece n tmp x (text_of ps ++ (34 ∷ rest)) v.0
        (omega (arith, length-append (piece_bytes x) (bytes_of ps)))
    ∙ raw-text_of ps n (tmp ++ piece_bytes x) rest (omega arith) v.1 (
        omega
          (arith, length-append tmp (piece_bytes x), length-append (piece_bytes x) (bytes_of ps)))
    ∙ ap (λ z. got (z, rest)) (append_assoc tmp (piece_bytes x) (bytes_of ps))

length-piece_text : (x : Piece) → 1 ≤ length (piece_text x)
length-piece_text (plain c) = omega arith
length-piece_text _ = omega arith

length-text_of : (ps : List Piece) → length ps ≤ length (text_of ps)
unfolding text_of
length-text_of [] = omega arith
length-text_of (x ∷ ps) =
    omega (arith, length-piece_text x, length-text_of ps, length-append (piece_text x) (text_of ps))

-- The reader gives the bytes that the pieces mean, and stops behind the closing quote.
pub string_raw-quoted :
    (ps : List Piece) (rest : List ℕ)
    → IsString ps
    → string_raw (34 ∷ text_of ps ++ (34 ∷ rest)) ≡ got (bytes_of ps, rest)
unfolding string_raw
string_raw-quoted ps rest s =
    raw-text_of ps _ [] rest
      (omega (arith, length-text_of ps, length-append (text_of ps) (34 ∷ rest))) s.pieces
      (omega (arith, s.fits))
