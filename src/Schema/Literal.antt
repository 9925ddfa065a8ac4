-- ===== src/Schema/Literal.antt =====
-- The literals of the schema compiler, as the grammar parser and the JSON reader read them.
use qwanto.Base.{
  ℕ, suc, ◌+◌, ◌*◌, ◌/◌, ◌%◌, ◌≤◌, ◌<◌, ◌≡◌, inl, inr, true, ◌||◌, some, List, [], ◌∷◌, ◌++◌,
  length, All, set, ltb, ◌==◌, if◌then◌else◌, arith, refl, sym, ap, ◌∙◌, append_assoc, Bool-cases,
}
use qwanto.Grammar.{Rule, cls}
use qwanto.Grammar.Build.{ok, push}
use qwanto.Grammar.Lex.{literal, char, esc, hex_pair, hex, empty_class}
use qwanto.Json.{got}
use qwanto.Json.Strings.{string_raw}
use qwanto.Json.Document.{
  Piece, plain, short, quotation, reverse_solidus, IsPiece, piece_text, piece_bytes, text_of,
  bytes_of, quoted,
}
use qwanto.Json.Quoted.{string_raw-quoted}
use qwanto.Schema.{lit_byte, lit_bytes, json_string_lit, hex_digit}

-- A byte of a string, as JSON writes it.
abbrev pub piece : ℕ → Piece
piece c = if c == 34 then short quotation else if c == 92 then short reverse_solidus else plain c

unfoldable pub pieces : List ℕ → List Piece
pieces [] = []
pieces (c ∷ cs) = piece c ∷ pieces cs

-- A symbol for each byte.
unfoldable pub push_bytes : List Rule → ℕ → ℕ → List ℕ → List Rule
push_bytes rules ri ai [] = rules
push_bytes rules ri ai (b ∷ bs) =
    push_bytes (push rules ri ai (cls (set empty_class b true))) ri ai bs

push_bytes-append :
    (rules : List Rule) (ri ai : ℕ) (u v : List ℕ)
    → push_bytes rules ri ai (u ++ v) ≡ push_bytes (push_bytes rules ri ai u) ri ai v
unfolding push_bytes
push_bytes-append rules ri ai [] v = refl
push_bytes-append rules ri ai (b ∷ u) v =
    push_bytes-append (push rules ri ai (cls (set empty_class b true))) ri ai u v

-- A byte that JSON admits in a string: none of the control bytes below 32.
abbrev pub IsJsonByte : ℕ → Type 0
IsJsonByte c = (32 ≤ c) × (c < 256)

hex-hex_digit : (d : ℕ) → d < 16 → hex (hex_digit d) ≡ some d
unfolding hex
hex-hex_digit d h = ground arith

-- Fuel for a turn of the loop on each byte, and `n` besides.
unfoldable pub fuel_for : List ℕ → ℕ → ℕ
fuel_for [] n = n
fuel_for (b ∷ bs) n = suc (fuel_for bs n)

fuel_for-append : (u v : List ℕ) (n : ℕ) → fuel_for (u ++ v) n ≡ fuel_for u (fuel_for v n)
unfolding fuel_for
fuel_for-append [] v n = refl
fuel_for-append (b ∷ u) v n = ap suc (fuel_for-append u v n)

-- What a byte of a string becomes takes one turn of the loop for each byte of the JSON text.
literal-lit_byte :
    (n : ℕ) (rules : List Rule) (ri ai c : ℕ) (rest : List ℕ)
    → IsJsonByte c
    → literal (fuel_for (piece_text (piece c)) n) rules ri ai (lit_byte c ++ rest)
      ≡ literal n (push_bytes rules ri ai (piece_text (piece c))) ri ai rest
unfolding literal lit_byte char esc hex_pair push_bytes fuel_for
literal-lit_byte n rules ri ai c rest h = elim (Bool-cases (c == 34)) [
  | inl e ↦ rw e refl
  | inr e ↦ elim (Bool-cases (c == 92)) [
    | inl f ↦ rw (e, f) refl
    | inr f ↦ elim (Bool-cases (ltb c 0x20 || (c == 0x7F))) [
      | inl g ↦
          let high = hex-hex_digit (c / 16) (omega (arith, h.1)) in
          let low = hex-hex_digit (c % 16) (omega arith) in
          let whole : c / 16 * 16 + c % 16 ≡ c = omega arith in
          rw (e, f, g, high, hex_pair, low, whole)
      | inr g ↦ rw (e, f, g, literal, e, literal, f)
    ]
  ]
]

literal-lit_bytes :
    (s : List ℕ) (n : ℕ) (rules : List Rule) (ri ai : ℕ) (rest : List ℕ)
    → All IsJsonByte s
    → literal (fuel_for (text_of (pieces s)) n) rules ri ai (lit_bytes s ++ rest)
      ≡ literal n (push_bytes rules ri ai (text_of (pieces s))) ri ai rest
unfolding lit_bytes pieces text_of fuel_for push_bytes
literal-lit_bytes [] n rules ri ai rest h = refl
literal-lit_bytes (c ∷ s) n rules ri ai rest h =
    let u = piece_text (piece c) in
    let after = push_bytes rules ri ai u in
    ap (λ m. literal m rules ri ai ((lit_byte c ++ lit_bytes s) ++ rest))
      (fuel_for-append u (text_of (pieces s)) n)
    ∙ ap (literal (fuel_for u (fuel_for (text_of (pieces s)) n)) rules ri ai)
        (append_assoc (lit_byte c) (lit_bytes s) rest)
    ∙ literal-lit_byte _ rules ri ai c (lit_bytes s ++ rest) h.0
    ∙ literal-lit_bytes s n after ri ai rest h.1
    ∙ ap (λ r. literal n r ri ai rest) (sym (push_bytes-append rules ri ai u (text_of (pieces s))))

-- The string as a JSON text.
unfoldable pub json_string : List ℕ → List ℕ
json_string s = quoted (pieces s)

-- What stands behind the opening quote of a literal.
abbrev pub behind_quote : List ℕ → List ℕ
behind_quote [] = []
behind_quote (c ∷ cs) = cs

piece_bytes-piece : (c : ℕ) → piece_bytes (piece c) ≡ c ∷ []
piece_bytes-piece c = elim (Bool-cases (c == 34)) [
  | inl e ↦ let is : 34 ≡ c = ground arith in rw (e) (ap (λ x. x ∷ []) is)
  | inr e ↦ elim (Bool-cases (c == 92)) [
    | inl f ↦ let is : 92 ≡ c = ground arith in rw (e, f) (ap (λ x. x ∷ []) is)
    | inr f ↦ rw (e, f) refl
  ]
]

piece-IsPiece : (c : ℕ) → IsPiece (piece c)
piece-IsPiece c = elim (Bool-cases (c == 34)) [
  | inl e ↦ rw (e) tt
  | inr e ↦ elim (Bool-cases (c == 92)) [ inl f ↦ rw (e, f) tt | inr f ↦ rw (e, f) (rw (e) f) ]
]

pub pieces-IsPiece : (s : List ℕ) → All IsPiece (pieces s)
unfolding pieces
pieces-IsPiece [] = tt
pieces-IsPiece (c ∷ s) = (piece-IsPiece c, pieces-IsPiece s)

pub bytes_of-pieces : (s : List ℕ) → bytes_of (pieces s) ≡ s
unfolding pieces bytes_of
bytes_of-pieces [] = refl
bytes_of-pieces (c ∷ s) =
    ap (λ u. u ++ bytes_of (pieces s)) (piece_bytes-piece c) ∙ ap (λ u. c ∷ u) (bytes_of-pieces s)

-- The literal of a string of bytes that JSON admits, none a control byte below 32, gives the grammar parser, behind the opening quote, one symbol for
-- each byte of the JSON text of the string, whatever text follows; where the string has at most 65535
-- bytes, the JSON reader gets the string back from that text.
pub json_string_lit-json_string :
    (s rest : List ℕ) (n : ℕ) (rules : List Rule) (ri ai : ℕ)
    → All IsJsonByte s
    → length s ≤ 65535
    → literal
          (fuel_for (json_string s) (suc n))
          rules
          ri
          ai
          (behind_quote (json_string_lit s ++ rest))
        ≡ ok (push_bytes rules ri ai (json_string s), rest)
      × string_raw (json_string s) ≡ got (s, [])
unfolding json_string json_string_lit literal char esc push_bytes fuel_for string_raw
json_string_lit-json_string s rest n rules ri ai bytes fits =
    let text = text_of (pieces s) in
    let opened = push_bytes rules ri ai (34 ∷ []) in
    let closed = push_bytes opened ri ai text in
    let meant = bytes_of-pieces s in
    (
      ap (λ m. literal (suc m) rules ri ai (behind_quote (json_string_lit s ++ rest)))
            (fuel_for-append text (34 ∷ []) (suc n))
          ∙ ap (literal (fuel_for text (suc (suc n))) opened ri ai)
              (append_assoc (lit_bytes s) (92 ∷ 34 ∷ 34 ∷ []) rest)
          ∙ literal-lit_bytes s (suc (suc n)) opened ri ai (92 ∷ 34 ∷ 34 ∷ rest) bytes
          ∙ ap (λ r. ok (r, rest)) (sym (push_bytes-append opened ri ai text (34 ∷ []))),
      string_raw-quoted (pieces s) [] (record { pieces = pieces-IsPiece s; fits = rw (meant) fits })
          ∙ ap (λ t. got (t, [])) meant,
    )
