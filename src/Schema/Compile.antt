-- ===== src/Schema/Compile.antt =====
-- The nodes of a schema, and `schema_to_gbnf` of c/schema_gbnf.h.
use qwanto.Base.{
  ℕ, zero, suc, Bool, true, false, not, ◌&&◌, ◌||◌, Option, none, some, List, [], ◌∷◌, ◌++◌, ◌==◌,
  if◌then◌else◌, c_string, codes,
}
use qwanto.Container.Open.{same_bytes}
use qwanto.Json.{
  Jval, j_null, j_bool, j_num, j_str, j_arr, j_obj, Items, no_items, item, Fields, no_fields, field,
  Scan, got, ◌>>=◌, json_get,
}
use qwanto.Json.Parse.{json_parse}
use qwanto.Schema.{
  Failure, empty_enum, enum_member_type, const_type, missing_type, nesting_too_deep,
  object_without_properties, required_not_an_array, required_must_list_every_property,
  property_not_in_required, min_items_above_one, array_without_items, node_not_an_object,
  unsupported, Uses, no_uses, Made, made, fails, emit, ◌then_emit◌, json_string_lit, is_known,
}

module _ {D : Type 0} where
  -- The first keyword that is not known.
  unfoldable pub unknown_key : Fields D → Option (List ℕ)
  unknown_key no_fields = none
  unknown_key (field k v fs) = elim (is_known (c_string k)) [
    | true ↦ unknown_key fs
    | false ↦ some (c_string k)
  ]

  -- A string among the items.
  unfoldable pub lists : List ℕ → Items D → Bool
  lists k no_items = false
  lists k (item (j_str s) xs) = same_bytes (c_string s) (c_string k) || lists k xs
  lists k (item _ xs) = lists k xs

  unfoldable pub lists_all : Fields D → Items D → Bool
  lists_all no_fields req = true
  lists_all (field k v fs) req = lists k req && lists_all fs req

  unfoldable pub count_items : Items D → ℕ
  count_items no_items = 0
  count_items (item x xs) = suc (count_items xs)

  unfoldable pub count_fields : Fields D → ℕ
  count_fields no_fields = 0
  count_fields (field k v fs) = suc (count_fields fs)

  -- The tests of "required"; `none` is no failure.
  unfoldable pub required_bad : Fields D → Option (Jval D) → Option Failure
  required_bad props none = none
  required_bad props (some (j_arr req)) =
      if not (count_items req == count_fields props)
      then some required_must_list_every_property
      else if lists_all props req
      then none
      else some property_not_in_required
  required_bad props (some _) = some required_not_an_array

  -- The members of an object, where `value` compiles their schemas.
  unfoldable pub members : (Jval D → Made) → Bool → Fields D → Made
  members value first no_fields = emit []
  members value first (field k v fs) =
      emit (
        (if first then [] else codes " \",\" jws ")
        ++ (json_string_lit (c_string k) ++ codes " jws \":\" jws "))
      then_emit value v
      then_emit emit (codes " jws")
      then_emit members value false fs

  -- `sgb_object`
  unfoldable pub sgb_object : (Jval D → Made) → Jval D → Made
  sgb_object value sc = elim (json_get sc (codes "properties")) [
    | some (j_obj props) ↦ elim (count_fields props == 0) [
      | true ↦ emit (codes "\"{\" jws \"}\"")
      | false ↦ elim (required_bad props (json_get sc (codes "required"))) [
        | some e ↦ fails e
        | none ↦
            emit (codes "\"{\" jws ")
            then_emit members value true props
            then_emit emit (codes " \"}\"")
      ]
    ]
    | _ ↦ fails object_without_properties
  ]

-- The terminal rules behind the root.
abbrev pub terminals : Uses → List ℕ
terminals u =
    codes "jws ::= ( \" \" | \"\\t\" | \"\\n\" | \"\\r\" )*\n"
    ++ ((if u.str
          then codes
              "jstr ::= \"\\\"\" jchar* \"\\\"\"\njchar ::= [^\"\\\\\\x00-\\x1f] | \"\\\\\" ( [\"\\\\/bfnrt] | \"u\" jhex jhex jhex jhex )\njhex ::= [0-9a-fA-F]\n"
          else [])
        ++ ((if u.num
              then codes
                  "jnum ::= \"-\"? ( \"0\" | [1-9] [0-9]* ) ( \".\" [0-9]+ )? ( ( \"e\" | \"E\" ) ( \"+\" | \"-\" )? [0-9]+ )?\n"
              else [])
            ++ (if u.int then codes "jint ::= \"-\"? ( \"0\" | [1-9] [0-9]* )\n" else [])))

unfoldable pub finished : Made → Made
finished (made t u) = made (t ++ (codes " jws\n" ++ terminals u)) u
finished (fails e) = fails e

-- What the C library and the machine do with a double: the texts of `%.17g` and of `%lld` of the cast, the
-- tests of `sgb_put_number_lit`, and the comparisons of minItems with 1.
pub record Doubles (D : Type 0) : Type 0 where
  pub shortest : D → List ℕ
  pub truncated : D → List ℕ
  pub is_integral : D → Bool
  pub below_limit : D → Bool
  pub above_limit : D → Bool
  pub at_least_one : D → Bool
  pub above_one : D → Bool

module _ {D : Type 0} (C : Doubles D) where
  -- `sgb_put_number_lit`
  unfoldable pub number_lit : D → List ℕ
  number_lit d =
      34
        ∷ (if C.is_integral d && C.below_limit d && C.above_limit d
            then C.truncated d
            else C.shortest d)
      ++ (34 ∷ [])

  -- A value of "const" or "enum".
  unfoldable pub literal_value : Failure → Jval D → Made
  literal_value e (j_str s) = emit (json_string_lit (c_string s))
  literal_value e (j_num x) = emit (number_lit x)
  literal_value e (j_bool b) = emit (if b then codes "\"true\"" else codes "\"false\"")
  literal_value e j_null = emit (codes "\"null\"")
  literal_value e _ = fails e

  unfoldable pub enum_rest : Items D → Made
  enum_rest no_items = emit (codes " )")
  enum_rest (item x xs) =
      emit (codes " | ") then_emit literal_value enum_member_type x then_emit enum_rest xs

  -- `sgb_enum`
  unfoldable pub sgb_enum : Jval D → Made
  sgb_enum (j_arr (item x xs)) =
      emit (codes "( ") then_emit literal_value enum_member_type x then_emit enum_rest xs
  sgb_enum _ = fails empty_enum

  abbrev number_holds : (D → Bool) → Option (Jval D) → Bool
  number_holds test (some (j_num x)) = test x
  number_holds test _ = false

  -- `sgb_array`
  unfoldable pub sgb_array : (Jval D → Made) → Jval D → Made
  sgb_array value sc =
      let min = json_get sc (codes "minItems") in
      elim (number_holds C.above_one min) [
        | true ↦ fails min_items_above_one
        | false ↦ elim (json_get sc (codes "items")) [
          | none ↦ fails array_without_items
          | some items ↦ elim (number_holds C.at_least_one min) [
            | true ↦
                emit (codes "\"[\" jws ")
                then_emit value items
                then_emit emit (codes " jws ( \",\" jws ")
                then_emit value items
                then_emit emit (codes " jws )* \"]\"")
            | false ↦
                emit (codes "\"[\" jws ( ")
                then_emit value items
                then_emit emit (codes " jws ( \",\" jws ")
                then_emit value items
                then_emit emit (codes " jws )* )? \"]\"")
          ]
        ]
      ]

  -- What the type of a node says.
  unfoldable pub typed : (Jval D → Made) → Jval D → List ℕ → Made
  typed value sc t =
      if same_bytes t (codes "object")
      then sgb_object value sc
      else if same_bytes t (codes "array")
      then sgb_array value sc
      else if same_bytes t (codes "string")
      then made (codes "jstr") (record no_uses { str = true })
      else if same_bytes t (codes "number")
      then made (codes "jnum") (record no_uses { num = true })
      else if same_bytes t (codes "integer")
      then made (codes "jint") (record no_uses { int = true })
      else if same_bytes t (codes "boolean")
      then emit (codes "( \"true\" | \"false\" )")
      else if same_bytes t (codes "null")
      then emit (codes "\"null\"")
      else fails (unsupported t)

  -- A node that is an object with known keywords.
  unfoldable pub node : (Jval D → Made) → Jval D → Made
  node value sc = elim (json_get sc (codes "const")) [
    | some c ↦ literal_value const_type c
    | none ↦ elim (json_get sc (codes "enum")) [
      | some e ↦ sgb_enum e
      | none ↦ elim (json_get sc (codes "type")) [
        | some (j_str t) ↦ typed value sc (c_string t)
        | _ ↦ fails missing_type
      ]
    ]
  ]

  -- `sgb_value`, with the number of levels that the depth leaves.
  unfoldable pub sgb_value : ℕ → Jval D → Made
  sgb_value zero sc = fails nesting_too_deep
  sgb_value (suc n) (j_obj fs) = elim (unknown_key fs) [
    | some k ↦ fails (unsupported k)
    | none ↦ node (sgb_value n) (j_obj fs)
  ]
  sgb_value (suc n) _ = fails node_not_an_object

  -- `SGB_MAX_DEPTH` is 32, and the root has the depth 0.
  unfoldable pub schema_grammar : Jval D → Made
  schema_grammar sc = finished (emit (codes "root ::= jws ") then_emit sgb_value 33 sc)

  -- `schema_to_gbnf`
  unfoldable pub schema_to_gbnf : (List ℕ → D × List ℕ) → List ℕ → Scan Made
  schema_to_gbnf strtod text = json_parse strtod text >>= λ sc. got (schema_grammar sc)
