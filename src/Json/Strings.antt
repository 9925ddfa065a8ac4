-- ===== src/Json/Strings.antt =====
-- `j_parse_str_raw` of c/json.h.
use qwanto.Base.{
  ℕ, zero, suc, ◌+◌, ◌-◌, ◌*◌, ◌/◌, ◌%◌, ◌^◌, Bool, true, false, ◌&&◌, ◌||◌, Option, none, some,
  List, [], ◌∷◌, ◌++◌, length, ltb, leb, ◌==◌, if◌then◌else◌,
}
use qwanto.Json.{Scan, got, over_read, out_of_fuel, ◌>>=◌, skip_ws}

-- `J_PUT`: the buffer holds 65535 bytes.
unfoldable pub put : List ℕ → ℕ → List ℕ
put tmp c = if ltb (length tmp) 65535 then tmp ++ (c ∷ []) else tmp

unfoldable pub puts : List ℕ → List ℕ → List ℕ
puts tmp [] = tmp
puts tmp (c ∷ cs) = puts (put tmp c) cs

-- The `switch`, without its case 'u'.
unfoldable pub escaped : ℕ → ℕ
escaped e =
    if e == b'n'
    then 10
    else if e == b't'
    then 9
    else if e == b'r'
    then 13
    else if e == b'b'
    then 8
    else if e == b'f'
    then 12
    else e

-- The value of a hexadecimal digit.
unfoldable pub digit : ℕ → Option ℕ
digit c =
    if leb b'0' c && leb c b'9'
    then some (c - b'0')
    else if leb b'a' c && leb c b'f'
    then some (c - b'a' + 10)
    else if leb b'A' c && leb c b'F'
    then some (c - b'A' + 10)
    else none

-- The number that the digits at the front make, behind `n`.
unfoldable pub digits : ℕ → List ℕ → ℕ
digits n [] = n
digits n (c ∷ p) = elim (digit c) [ none ↦ n | some d ↦ digits (n * 16 + d) p ]

-- A prefix 0x is skipped where a digit follows it.
unfoldable pub unsigned_hex : List ℕ → ℕ
unsigned_hex [] = 0
unsigned_hex (a ∷ []) = digits 0 (a ∷ [])
unsigned_hex (a ∷ b ∷ []) = digits 0 (a ∷ b ∷ [])
unsigned_hex (a ∷ b ∷ c ∷ p) =
    if (a == b'0') && ((b == b'x') || (b == b'X'))
    then digits 0 (c ∷ p)
    else digits 0 (a ∷ b ∷ c ∷ p)

-- `strtoul` at the base 16 on the four bytes or fewer, and its cast to unsigned.
unfoldable pub signed_hex : List ℕ → ℕ
signed_hex [] = 0
signed_hex (c ∷ p) =
    if c == b'-'
    then (2 ^ 32 - unsigned_hex p) % 2 ^ 32
    else if c == b'+'
    then unsigned_hex p
    else unsigned_hex (c ∷ p)

unfoldable pub strtoul16 : List ℕ → ℕ
strtoul16 p = signed_hex (skip_ws p)

-- The bytes that the code point is put as, each cast to char.
unfoldable pub utf8 : ℕ → List ℕ
utf8 cp =
    if ltb cp 0x80
    then cp ∷ []
    else if ltb cp 0x800
    then (0xC0 + cp / 64) ∷ (0x80 + cp % 64) ∷ []
    else if ltb cp 0x10000
    then (0xE0 + cp / 4096) ∷ (0x80 + cp / 64 % 64) ∷ (0x80 + cp % 64) ∷ []
    else (0xF0 + cp / 2 ^ 18 % 16)
      ∷ (0x80 + cp / 4096 % 64)
      ∷ (0x80 + cp / 64 % 64)
      ∷ (0x80 + cp % 64)
      ∷ []

abbrev pub is_high : ℕ → Bool
is_high cp = leb 0xD800 cp && leb cp 0xDBFF

abbrev pub is_low : ℕ → Bool
is_low cp = leb 0xDC00 cp && leb cp 0xDFFF

abbrev pub joined : ℕ → ℕ → ℕ
joined hi lo = 0x10000 + (hi - 0xD800) * 1024 + (lo - 0xDC00)

-- The second half of a surrogate pair behind `hi`, where the text goes on with `\u`; the text is what
-- stands behind that, and `back` the text from the backslash on.
unfoldable pub low_half : ℕ → List ℕ → List ℕ → Scan (ℕ × List ℕ)
low_half hi back [] = over_read
low_half hi back (a ∷ []) = over_read
low_half hi back (a ∷ b ∷ []) = over_read
low_half hi back (a ∷ b ∷ c ∷ []) =
    if is_low (strtoul16 (a ∷ b ∷ c ∷ [])) then over_read else got (hi, back)
low_half hi back (a ∷ b ∷ c ∷ d ∷ p) =
    let lo = strtoul16 (a ∷ b ∷ c ∷ d ∷ []) in
    if is_low lo then got (joined hi lo, p) else got (hi, back)

-- The code point that starts with the unit `cp`, and the text behind it.
unfoldable pub code_point : ℕ → List ℕ → Scan (ℕ × List ℕ)
code_point cp (x ∷ y ∷ p) =
    if is_high cp && ((x == 92) && (y == b'u'))
    then low_half cp (x ∷ y ∷ p) p
    else got (cp, x ∷ y ∷ p)
code_point cp p = got (cp, p)

-- The case 'u'. With fewer than four bytes left the loop reads on behind the NUL.
unfoldable pub unicode : List ℕ → List ℕ → Scan (List ℕ × List ℕ)
unicode tmp (a ∷ b ∷ c ∷ d ∷ p) =
    code_point (strtoul16 (a ∷ b ∷ c ∷ d ∷ [])) p >>= λ x. got (puts tmp (utf8 x.0), x.1)
unicode tmp p = over_read

-- What stands behind a backslash.
unfoldable pub escape : List ℕ → List ℕ → Scan (List ℕ × List ℕ)
escape tmp [] = got (put tmp 92, [])
escape tmp (e ∷ p) = elim (e == b'u') [
  | true ↦ unicode tmp p
  | false ↦ got (put tmp (escaped e), p)
]

-- The loop, with what stands in the buffer; each turn reads a byte at least.
unfoldable pub raw : ℕ → List ℕ → List ℕ → Scan (List ℕ × List ℕ)
raw zero tmp p = out_of_fuel
raw (suc n) tmp [] = got (tmp, [])
raw (suc n) tmp (c ∷ p) = elim (c == 34) [
  | true ↦ got (tmp, p)
  | false ↦ elim (c == 92) [
    | true ↦ escape tmp p >>= λ x. raw n x.0 x.1
    | false ↦ raw n (put tmp c) p
  ]
]

-- `j_parse_str_raw`, which skips a byte before it, whatever that is.
unfoldable pub string_raw : List ℕ → Scan (List ℕ × List ℕ)
string_raw [] = over_read
string_raw (c ∷ p) = raw (length p + 1) [] p
