-- ===== src/Grammar/Lex.antt =====
-- The characters, literals and classes of the grammar parser of c/grammar.h.
use qwanto.Base.{
  ℕ, zero, suc, ◌+◌, ◌-◌, ◌*◌, Bool, true, false, not, ◌&&◌, ◌||◌, Option, none, some, List, [],
  ◌∷◌, map, replicate, set, ltb, leb, ◌==◌, if◌then◌else◌,
}
use qwanto.Grammar.{Class, cls, Rule}
use qwanto.Grammar.Build.{
  ParseError, invalid_escape_in_literal, unterminated_literal, invalid_escape_in_class,
  unterminated_class, out_of_fuel, Answer, ok, error, ◌>>=◌, required, push,
}

-- `gr__ws`; the flag says whether a comment is being skipped.
unfoldable pub ws : Bool → List ℕ → List ℕ
ws comment [] = []
ws true (c ∷ p) = elim (c == 10) [ true ↦ ws false p | false ↦ ws true p ]
ws false (c ∷ p) = elim ((c == 32) || (c == 9) || (c == 13) || (c == 10)) [
  | true ↦ ws false p
  | false ↦ elim (c == b'#') [ true ↦ ws true p | false ↦ c ∷ p ]
]

-- `gr__idch`
unfoldable pub idch : ℕ → Bool
idch c =
    (leb b'a' c && leb c b'z')
    || (leb b'A' c && leb c b'Z')
    || (leb b'0' c && leb c b'9')
    || (c == b'_')
    || (c == b'-')

-- The identifier of `gr__idlen` bytes, and the text after it.
unfoldable pub identifier : List ℕ → List ℕ × List ℕ
identifier [] = ([], [])
identifier (c ∷ p) =
    let (name, rest) = identifier p in if idch c then (c ∷ name, rest) else ([], c ∷ p)

-- `gr__hex`
unfoldable pub hex : ℕ → Option ℕ
hex c =
    if leb b'0' c && leb c b'9'
    then some (c - b'0')
    else if leb b'a' c && leb c b'f'
    then some (c - b'a' + 10)
    else if leb b'A' c && leb c b'F'
    then some (c - b'A' + 10)
    else none

-- The two digits of `\x`, and the text after them.
unfoldable pub hex_pair : List ℕ → Option (ℕ × List ℕ)
hex_pair [] = none
hex_pair (c ∷ []) = none
hex_pair (c ∷ d ∷ p) = elim (hex c) [
  | none ↦ none
  | some h ↦ elim (hex d) [ none ↦ none | some l ↦ some (h * 16 + l, p) ]
]

-- `gr__esc`: the byte, and the text after it; `none` is -1.
unfoldable pub esc : List ℕ → Option (ℕ × List ℕ)
esc [] = none
esc (c ∷ p) =
    if c == b'n'
    then some (10, p)
    else if c == b'r'
    then some (13, p)
    else if c == b't'
    then some (9, p)
    else if (c == 34) || (c == 92) || (c == b'[') || (c == b']') || (c == b'-') || (c == b'^')
    then some (c, p)
    else if c == b'x'
    then hex_pair p
    else none

-- A byte of a literal or of a class, escaped or not.
unfoldable pub char : ParseError → ℕ → List ℕ → Answer (ℕ × List ℕ)
char e c p = if c == 92 then required e (esc p) else ok (c, p)

abbrev pub empty_class : Class
empty_class = replicate 256 false

-- The loop of `gr__lit`, from after the opening quote; each turn reads a byte at least.
unfoldable pub literal : ℕ → List Rule → ℕ → ℕ → List ℕ → Answer (List Rule × List ℕ)
literal zero rules ri ai p = error out_of_fuel
literal (suc n) rules ri ai [] = error unterminated_literal
literal (suc n) rules ri ai (c ∷ p) = elim (c == 34) [
  | true ↦ ok (rules, p)
  | false ↦ do
    (b, q) ← char invalid_escape_in_literal c p
    literal n (push rules ri ai (cls (set empty_class b true))) ri ai q
]

-- The bits from `b` on, `n` of them.
unfoldable pub set_range : ℕ → ℕ → Class → Class
set_range zero b c = c
set_range (suc n) b c = set_range n (b + 1) (set c b true)

-- The bits from `lo` to `hi`, or from `hi` to `lo`.
unfoldable pub set_between : ℕ → ℕ → Class → Class
set_between lo hi c =
    if ltb hi lo then set_range (lo - hi + 1) hi c else set_range (hi - lo + 1) lo c

-- The upper end of a range that starts with `lo`, and the text after it.
unfoldable pub upper : ℕ → List ℕ → Answer (ℕ × List ℕ)
upper lo [] = ok (lo, [])
upper lo (c ∷ []) = ok (lo, c ∷ [])
upper lo (c ∷ d ∷ p) =
    if (c == b'-') && not (d == b']') then char invalid_escape_in_class d p else ok (lo, c ∷ d ∷ p)

-- The loop of `gr__cls`.
unfoldable pub class_bits : ℕ → Class → List ℕ → Answer (Class × List ℕ)
class_bits zero bits p = error out_of_fuel
class_bits (suc n) bits [] = error unterminated_class
class_bits (suc n) bits (c ∷ p) = elim (c == b']') [
  | true ↦ ok (bits, p)
  | false ↦ do
    (lo, q) ← char invalid_escape_in_class c p
    (hi, r) ← upper lo q
    class_bits n (set_between lo hi bits) r
]

-- `gr__cls`, from after the opening bracket: the class, and the text after it.
unfoldable pub class_of : ℕ → List ℕ → Answer (Class × List ℕ)
class_of n [] = error unterminated_class
class_of n (c ∷ p) =
    if c == b'^'
    then (do (bits, q) ← class_bits n empty_class p; ok (map not bits, q))
    else class_bits n empty_class (c ∷ p)
