-- ===== src/Schema/Growth.antt =====
-- The length of the grammars of nested arrays.
use qwanto.Base.{
  ℕ, zero, suc, ◌+◌, ◌*◌, ◌^◌, ◌≤◌, ◌<◌, ◌≡◌, true, List, [], ◌∷◌, ◌++◌, length, codes, c_string,
  arith, refl, ap, append_nil, ◌∙◌, length-append,
}
use qwanto.Container.Open.{same_bytes}
use qwanto.Json.{got, ◌>>=◌, Jval, j_obj, j_str, field, no_fields, json_get, get_field}
use qwanto.Json.Document.{
  Document, str_text, object, last_member, more_members, render, denotes, depth, text_of, bytes_of,
  IsDocument, IsString,
}
use qwanto.Json.Parse.{json_parse}
use qwanto.Json.Reads.{json_parse-render}
use qwanto.Schema.Literal.{pieces, pieces-IsPiece, bytes_of-pieces}
use qwanto.Schema.Compile.{
  Doubles, sgb_value, schema_grammar, schema_to_gbnf, node, typed, sgb_array, unknown_key, finished,
  terminals,
}
use qwanto.Schema.{Made, made, Uses, no_uses, is_known, emit, ◌then_emit◌}

module _ {D : Type 0} where
  -- Arrays of arrays of strings, `n` arrays deep.
  unfoldable pub nested : ℕ → Jval D
  nested zero = j_obj (field (codes "type") (j_str (codes "string")) no_fields)
  nested (suc n) =
      j_obj
        (field (codes "type") (j_str (codes "array")) (field (codes "items") (nested n) no_fields))

length_around : (u v w t : List ℕ) → length t + length t ≤ length (u ++ (t ++ (v ++ (t ++ w))))
length_around u v w t = omega (
  arith,
  length-append u (t ++ (v ++ (t ++ w))),
  length-append t (v ++ (t ++ w)),
  length-append v (t ++ w),
  length-append t w,
)

-- A text of a length at least.
record Long (m : ℕ) (a : Made) : Type 0 where
  text : List ℕ
  uses : Uses
  is : a ≡ made text uses
  long : m ≤ length text

module _ {D : Type 0} (C : Doubles D) where
  sgb_value-string :
      (m : ℕ)
      → sgb_value C (suc m) (nested zero) ≡ made (codes "jstr") (record no_uses { str = true })
  unfolding sgb_value nested unknown_key is_known same_bytes c_string node json_get get_field typed
  sgb_value-string m = refl

  sgb_value-array :
      (m n : ℕ)
      → sgb_value C (suc m) (nested (suc n)) ≡ sgb_array C (sgb_value C m) (nested (suc n))
  unfolding sgb_value nested unknown_key is_known same_bytes c_string node json_get get_field typed
  sgb_value-array m n = refl

  sgb_array-Long :
      (value : Jval D → Made) (m n : ℕ)
      → Long m (value (nested n))
      → Long (m + m) (sgb_array C value (nested (suc n)))
  unfolding sgb_array nested same_bytes c_string json_get get_field
  sgb_array-Long value m n h = record {
    text =
        codes "\"[\" jws ( "
        ++ (h.text ++ (codes " jws ( \",\" jws " ++ (h.text ++ codes " jws )* )? \"]\"")));
    uses = _;
    is = ap (λ a. sgb_array C (λ _. a) (nested (suc n))) h.is;
    long = omega (
      arith,
      h.long,
      length_around (codes "\"[\" jws ( ") (codes " jws ( \",\" jws ") (codes " jws )* )? \"]\"")
          h.text,
    );
  }

  sgb_value-Long : (m n : ℕ) → n < m → Long (2 ^ n) (sgb_value C m (nested n))
  sgb_value-Long zero n h = elim h [ ]
  sgb_value-Long (suc m) zero h = record {
    text = _;
    uses = _;
    is = sgb_value-string m;
    long = omega arith;
  }
  sgb_value-Long (suc m) (suc n) h =
      let half = sgb_array-Long (sgb_value C m) (2 ^ n) n (sgb_value-Long m n (omega arith)) in
      record {
        text = half.text;
        uses = half.uses;
        is = sgb_value-array m n ∙ half.is;
        long = omega (arith, half.long);
      }

  schema_grammar-nested : (n : ℕ) → n ≤ 32 → Long (2 ^ n) (schema_grammar C (nested n))
  unfolding schema_grammar finished
  schema_grammar-nested n h =
      let v = sgb_value-Long 33 n (omega arith) in
      let root = codes "root ::= jws " in
      let rest = codes " jws\n" ++ terminals v.uses in
      record {
        text = (root ++ v.text) ++ rest;
        uses = v.uses;
        is = ap (λ a. finished (emit root then_emit a)) v.is;
        long =
            omega (arith, v.long, length-append root v.text, length-append (root ++ v.text) rest);
      }

module _ {D : Type 0} where
  -- The schema as a document without white space.
  unfoldable pub nested_document : ℕ → Document D
  nested_document zero =
      object (last_member [] (pieces (codes "type")) [] [] (str_text (pieces (codes "string"))) [])
  nested_document (suc n) = object (
      more_members [] (pieces (codes "type")) [] [] (str_text (pieces (codes "array"))) []
        (last_member [] (pieces (codes "items")) [] [] (nested_document n) []))

  denotes-nested_document : (n : ℕ) → denotes (nested_document n) ≡ nested n
  unfolding nested_document nested denotes pieces bytes_of
  denotes-nested_document zero = refl
  denotes-nested_document (suc n) =
      ap
        (λ v.
          j_obj (field (codes "type") (j_str (codes "array")) (field (codes "items") v no_fields)))
        (denotes-nested_document n)

length-nested_document :
    (D : Type 0) (n : ℕ) → length (render (nested_document {D = D} n)) ≡ 25 * n + 17
unfolding nested_document render pieces text_of
length-nested_document D zero = refl
length-nested_document D (suc n) = omega (
  arith,
  length-nested_document D n,
  length-append (render (nested_document {D = D} n) ++ []) (125 ∷ []),
  length-append (render (nested_document {D = D} n)) [],
)

depth-nested_document : (D : Type 0) (n : ℕ) → depth (nested_document {D = D} n) ≡ suc n
unfolding nested_document depth
depth-nested_document D zero = refl
depth-nested_document D (suc n) = omega (arith, depth-nested_document D n)

pieces-IsString : (s : List ℕ) → length s ≤ 65535 → IsString (pieces s)
pieces-IsString s h = record { pieces = pieces-IsPiece s; fits = rw (bytes_of-pieces s) h }

module _ {D : Type 0} (strtod : List ℕ → D × List ℕ) where
  nested_document-IsDocument : (n : ℕ) → IsDocument strtod (nested_document n)
  unfolding nested_document IsDocument
  nested_document-IsDocument zero = (
    tt,
    pieces-IsString (codes "type") (omega arith),
    tt,
    tt,
    pieces-IsString (codes "string") (omega arith),
    tt,
  )
  nested_document-IsDocument (suc n) = (
    tt,
    pieces-IsString (codes "type") (omega arith),
    tt,
    tt,
    pieces-IsString (codes "array") (omega arith),
    tt,
    (tt, pieces-IsString (codes "items") (omega arith), tt, tt, nested_document-IsDocument n, tt),
  )

  json_parse-nested_document :
      (n : ℕ) → n ≤ 32 → json_parse strtod (render (nested_document {D = D} n)) ≡ got (nested n)
  json_parse-nested_document n h =
      ap (json_parse strtod) (append_nil (render (nested_document {D = D} n)))
      ∙ json_parse-render strtod [] (nested_document n) [] tt (nested_document-IsDocument n) tt
          (omega (arith, depth-nested_document D n))
      ∙ ap got (denotes-nested_document n)

-- For n up to 32 there is a schema of 25 * n + 17 bytes, n arrays length_around a string, that the compiler takes,
-- and the grammar that it makes has 2 ^ n bytes at least.
pub schema_to_gbnf-nested :
    {D : Type 0} (C : Doubles D) (strtod : List ℕ → D × List ℕ) (n : ℕ)
    → n ≤ 32
    → (text : List ℕ) × (t : List ℕ) × (u : Uses) × (length text ≡ 25 * n + 17)
      × (schema_to_gbnf C strtod text ≡ got (made t u))
      × (2 ^ n ≤ length t)
unfolding schema_to_gbnf
schema_to_gbnf-nested {D} C strtod n h =
    let g = schema_grammar-nested C n h in
    (
      render (nested_document {D = D} n),
      g.text,
      g.uses,
      length-nested_document D n,
      ap (λ r. r >>= λ sc. got (schema_grammar C sc)) (json_parse-nested_document strtod n h)
          ∙ ap got g.is,
      g.long,
    )
