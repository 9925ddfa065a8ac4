-- ===== src/Json/Document.antt =====
-- JSON documents as RFC 8259 writes them, with the text and the value of each: what c/json.h is to read.
use qwanto.Base.{
  ℕ, suc, ◌+◌, ◌-◌, ◌*◌, ◌/◌, ◌%◌, ◌≤◌, ◌<◌, ◌≡◌, ◌⊎◌, Bool, true, false, ◌||◌, List, [], ◌∷◌, ◌++◌,
  length, All, max, ltb, codes, ◌&&◌, ◌==◌, if◌then◌else◌,
}
use qwanto.Json.{
  Jval, j_null, j_bool, j_num, j_str, j_arr, j_obj, Items, no_items, item, Fields, no_fields, field,
}

-- The letters behind a backslash.
pub data Escape : Type 0 where
  quotation reverse_solidus solidus backspace form_feed line_feed carriage_return tab : Escape

abbrev pub letter : Escape → ℕ
letter quotation = 34
letter reverse_solidus = 92
letter solidus = b'/'
letter backspace = b'b'
letter form_feed = b'f'
letter line_feed = b'n'
letter carriage_return = b'r'
letter tab = b't'

abbrev pub meaning : Escape → ℕ
meaning quotation = 34
meaning reverse_solidus = 92
meaning solidus = b'/'
meaning backspace = 8
meaning form_feed = 12
meaning line_feed = 10
meaning carriage_return = 13
meaning tab = 9

-- A hexadecimal digit: its value, and whether it is written as a capital letter.
pub record Hex : Type 0 where
  pub nibble : ℕ
  pub capital : Bool

abbrev pub IsHex : Hex → Type 0
IsHex h = h.nibble < 16

abbrev pub hex_char : Hex → ℕ
hex_char h =
    if ltb h.nibble 10 then 48 + h.nibble else if h.capital then 55 + h.nibble else 87 + h.nibble

-- The four digits behind `\u`.
pub record Quad : Type 0 where
  pub h1 : Hex
  pub h2 : Hex
  pub h3 : Hex
  pub h4 : Hex

abbrev pub IsQuad : Quad → Type 0
IsQuad q = IsHex q.h1 × IsHex q.h2 × IsHex q.h3 × IsHex q.h4

abbrev pub quad_text : Quad → List ℕ
quad_text q = hex_char q.h1 ∷ hex_char q.h2 ∷ hex_char q.h3 ∷ hex_char q.h4 ∷ []

abbrev pub quad_value : Quad → ℕ
quad_value q = ((q.h1.nibble * 16 + q.h2.nibble) * 16 + q.h3.nibble) * 16 + q.h4.nibble

-- The UTF-8 form of a code point below 0x110000, by RFC 3629: a lead byte, and six bits in each byte behind it.
abbrev six_bits : ℕ → ℕ
six_bits n = 0x80 + n % 64

unfoldable pub encoded : ℕ → List ℕ
encoded cp =
    if ltb 0xFFFF cp
    then (0xF0 + cp / 64 / 64 / 64)
      ∷ six_bits (cp / 64 / 64)
      ∷ six_bits (cp / 64)
      ∷ six_bits cp
      ∷ []
    else if ltb 0x7FF cp
    then (0xE0 + cp / 64 / 64) ∷ six_bits (cp / 64) ∷ six_bits cp ∷ []
    else if ltb 0x7F cp
    then (0xC0 + cp / 64) ∷ six_bits cp ∷ []
    else cp ∷ []

-- A piece of a string.
pub data Piece : Type 0 where
  plain : ℕ → Piece
  short : Escape → Piece
  unit : Quad → Piece
  pair : Quad → Quad → Piece

-- A unit stands for a code point that is no surrogate, a pair for one from U+10000 on.
abbrev pub IsPiece : Piece → Type 0
IsPiece (plain c) = ((c == 34) || (c == 92)) ≡ false
IsPiece (short e) = Unit
IsPiece (unit q) = IsQuad q × ((quad_value q < 0xD800) ⊎ (0xE000 ≤ quad_value q))
IsPiece (pair q r) =
    IsQuad q
    × IsQuad r
    × (0xD800 ≤ quad_value q)
    × (quad_value q < 0xDC00)
    × (0xDC00 ≤ quad_value r)
    × (quad_value r < 0xE000)

abbrev pub piece_text : Piece → List ℕ
piece_text (plain c) = c ∷ []
piece_text (short e) = 92 ∷ letter e ∷ []
piece_text (unit q) = 92 ∷ b'u' ∷ quad_text q
piece_text (pair q r) = 92 ∷ b'u' ∷ quad_text q ++ (92 ∷ b'u' ∷ quad_text r)

abbrev pub piece_bytes : Piece → List ℕ
piece_bytes (plain c) = c ∷ []
piece_bytes (short e) = meaning e ∷ []
piece_bytes (unit q) = encoded (quad_value q)
piece_bytes (pair q r) =
    encoded (0x10000 + (quad_value q - 0xD800) * 1024 + (quad_value r - 0xDC00))

unfoldable pub text_of : List Piece → List ℕ
text_of [] = []
text_of (x ∷ ps) = piece_text x ++ text_of ps

unfoldable pub bytes_of : List Piece → List ℕ
bytes_of [] = []
bytes_of (x ∷ ps) = piece_bytes x ++ bytes_of ps

-- The buffer of the code holds 65535 bytes.
pub record IsString (ps : List Piece) : Type 0 where
  pub pieces : All IsPiece ps
  pub fits : length (bytes_of ps) ≤ 65535

abbrev pub is_blank : ℕ → Bool
is_blank c = (c == 32) || (c == 9) || (c == 10) || (c == 13)

abbrev pub IsBlank : List ℕ → Type 0
IsBlank w = All (λ c. is_blank c ≡ true) w

-- A document without white space around it. The lists are not empty; white space stands before and
-- behind each part.
mutual
  pub data Document (D : Type 0) : Type 0 where
    null_text : Document D
    bool_text : Bool → Document D
    -- the double that the numeral means, and its first byte and the others
    num_text : D → ℕ → List ℕ → Document D
    str_text : List Piece → Document D
    empty_array : List ℕ → Document D
    array : Elements D → Document D
    empty_object : List ℕ → Document D
    object : Members D → Document D

  pub data Elements (D : Type 0) : Type 0 where
    last : List ℕ → Document D → List ℕ → Elements D
    more : List ℕ → Document D → List ℕ → Elements D → Elements D

  pub data Members (D : Type 0) : Type 0 where
    last_member : List ℕ → List Piece → List ℕ → List ℕ → Document D → List ℕ → Members D
    more_members :
        List ℕ → List Piece → List ℕ → List ℕ → Document D → List ℕ → Members D → Members D

abbrev pub quoted : List Piece → List ℕ
quoted ps = 34 ∷ text_of ps ++ (34 ∷ [])

-- The text of a document.
unfoldable mutual
  pub render : {D : Type 0} → Document D → List ℕ
  render null_text = codes "null"
  render (bool_text true) = codes "true"
  render (bool_text false) = codes "false"
  render (num_text x c t) = c ∷ t
  render (str_text ps) = quoted ps
  render (empty_array w) = b'[' ∷ w ++ (b']' ∷ [])
  render (array es) = b'[' ∷ render_elements es ++ (b']' ∷ [])
  render (empty_object w) = b'{' ∷ w ++ (b'}' ∷ [])
  render (object ms) = b'{' ∷ render_members ms ++ (b'}' ∷ [])

  pub render_elements : {D : Type 0} → Elements D → List ℕ
  render_elements (last v x w) = v ++ (render x ++ w)
  render_elements (more v x w es) = v ++ (render x ++ (w ++ (b',' ∷ render_elements es)))

  pub render_members : {D : Type 0} → Members D → List ℕ
  render_members (last_member v k w y x z) = v ++ (quoted k ++ (w ++ (b':' ∷ y ++ (render x ++ z))))
  render_members (more_members v k w y x z ms) =
      v ++ (quoted k ++ (w ++ (b':' ∷ y ++ (render x ++ (z ++ (b',' ∷ render_members ms))))))

-- The value that a document means.
unfoldable mutual
  pub denotes : {D : Type 0} → Document D → Jval D
  denotes null_text = j_null
  denotes (bool_text b) = j_bool b
  denotes (num_text x c t) = j_num x
  denotes (str_text ps) = j_str (bytes_of ps)
  denotes (empty_array w) = j_arr no_items
  denotes (array es) = j_arr (denotes_elements es)
  denotes (empty_object w) = j_obj no_fields
  denotes (object ms) = j_obj (denotes_members ms)

  pub denotes_elements : {D : Type 0} → Elements D → Items D
  denotes_elements (last v x w) = item (denotes x) no_items
  denotes_elements (more v x w es) = item (denotes x) (denotes_elements es)

  pub denotes_members : {D : Type 0} → Members D → Fields D
  denotes_members (last_member v k w y x z) = field (bytes_of k) (denotes x) no_fields
  denotes_members (more_members v k w y x z ms) =
      field (bytes_of k) (denotes x) (denotes_members ms)

-- How deep the brackets nest.
unfoldable mutual
  pub depth : {D : Type 0} → Document D → ℕ
  depth null_text = 0
  depth (bool_text b) = 0
  depth (num_text x c t) = 0
  depth (str_text ps) = 0
  depth (empty_array w) = 1
  depth (array es) = suc (depth_elements es)
  depth (empty_object w) = 1
  depth (object ms) = suc (depth_members ms)

  pub depth_elements : {D : Type 0} → Elements D → ℕ
  depth_elements (last v x w) = depth x
  depth_elements (more v x w es) = max (depth x) (depth_elements es)

  pub depth_members : {D : Type 0} → Members D → ℕ
  depth_members (last_member v k w y x z) = depth x
  depth_members (more_members v k w y x z ms) = max (depth x) (depth_members ms)

-- What may stand behind a value: the end of the text, white space, a comma or a closing bracket.
abbrev pub Stops : List ℕ → Type 0
Stops [] = Unit
Stops (c ∷ p) = (is_blank c || (c == b',') || (c == b']') || (c == b'}')) ≡ true

-- The parts are in order, and `strtod` reads each numeral up to what may stand behind it.
module _ {D : Type 0} (strtod : List ℕ → D × List ℕ) where
  unfoldable mutual
    pub IsDocument : Document D → Type 0
    IsDocument null_text = Unit
    IsDocument (bool_text b) = Unit
    IsDocument (num_text x c t) =
        ((c == b'-') || ltb 47 c && ltb c 58) ≡ true
        × ((rest : List ℕ) → Stops rest → strtod (c ∷ t ++ rest) ≡ (x, rest))
    IsDocument (str_text ps) = IsString ps
    IsDocument (empty_array w) = IsBlank w
    IsDocument (array es) = AreElements es
    IsDocument (empty_object w) = IsBlank w
    IsDocument (object ms) = AreMembers ms

    pub AreElements : Elements D → Type 0
    AreElements (last v x w) = IsBlank v × IsDocument x × IsBlank w
    AreElements (more v x w es) = IsBlank v × IsDocument x × IsBlank w × AreElements es

    pub AreMembers : Members D → Type 0
    AreMembers (last_member v k w y x z) =
        IsBlank v × IsString k × IsBlank w × IsBlank y × IsDocument x × IsBlank z
    AreMembers (more_members v k w y x z ms) =
        IsBlank v × IsString k × IsBlank w × IsBlank y × IsDocument x × IsBlank z × AreMembers ms
