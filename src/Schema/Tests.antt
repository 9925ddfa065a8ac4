-- ===== src/Schema/Tests.antt =====
-- Runs of the schema compiler, and its theorems at concrete inputs.
use qwanto.Base.{
  String, true, replicate, ℕ, ◌^◌, ◌≤◌, ◌≡◌, List, [], ◌∷◌, ◌++◌, length, leb, ltb, codes, c_string,
  arith, refl,
}
use qwanto.Container.Open.{same_bytes}
use qwanto.Grammar.Build.{ok}
use qwanto.Grammar.Lex.{literal}
use qwanto.Json.{
  Jval, j_null, j_num, j_str, j_arr, j_obj, item, no_items, field, no_fields, got, json_get,
  get_field,
}
use qwanto.Json.Strings.{string_raw}
use qwanto.Schema.Compile.{
  Doubles, number_lit, sgb_value, schema_to_gbnf, node, typed, sgb_object, sgb_enum, enum_rest,
  literal_value, members, required_bad, lists, lists_all, count_items, count_fields, unknown_key,
}
use qwanto.Schema.{
  made, Uses, no_uses, fails, unsupported, property_not_in_required, json_string_lit, lit_bytes,
  lit_byte, is_known, is_annotation,
}
use qwanto.Schema.Literal.{
  json_string, push_bytes, fuel_for, behind_quote, json_string_lit-json_string,
}
use qwanto.Schema.Growth.{schema_to_gbnf-nested}

-- Doubles that are natural numbers, each with its digits in base 1 as its text, or a 7 from 3 on.
abbrev natural : Doubles ℕ
natural = record {
  shortest = λ n. 55 ∷ [];
  truncated = λ n. replicate n 49;
  is_integral = λ n. true;
  below_limit = λ n. ltb n 3;
  above_limit = λ n. true;
  at_least_one = leb 1;
  above_one = ltb 1;
}

abbrev no_number : List ℕ → ℕ × List ℕ
no_number p = (0, p)

string_lit_test : json_string_lit (codes "a\"\\\n") ≡ codes "\"\\\"a\\\\\\\"\\\\\\\\\\x0a\\\"\""
unfolding json_string_lit lit_bytes lit_byte
string_lit_test = refl

abbrev keyword : String → Jval ℕ → Jval ℕ
keyword k v = j_obj (field (codes k) v no_fields)

unknown_test :
    sgb_value natural 33 (keyword "anyOf" (j_arr no_items)) ≡ fails (unsupported (codes "anyOf"))
unfolding sgb_value unknown_key is_known is_annotation same_bytes c_string
unknown_test = refl

enum_test :
    sgb_value natural 33
      (keyword "enum" (j_arr (item (j_str (codes "a")) (item (j_num 7) (item j_null no_items)))))
    ≡ made (codes "( \"\\\"a\\\"\" | \"7\" | \"null\" )") no_uses
unfolding sgb_value unknown_key is_known is_annotation same_bytes c_string node json_get get_field
    sgb_enum enum_rest literal_value number_lit json_string_lit lit_bytes lit_byte
enum_test = refl

abbrev point : Jval ℕ
point = j_obj (
    field (codes "type") (j_str (codes "object")) (
      field (codes "properties") (keyword "x" (keyword "type" (j_str (codes "null"))))
        (field (codes "required") (j_arr (item (j_str (codes "y")) no_items)) no_fields)))

required_test : sgb_value natural 33 point ≡ fails property_not_in_required
unfolding sgb_value unknown_key is_known is_annotation same_bytes c_string node json_get get_field
    typed sgb_object required_bad lists lists_all count_items count_fields
required_test = refl

object_test :
    sgb_value natural 33 (
      j_obj (
        field (codes "type") (j_str (codes "object")) (
          field
            (codes "properties")
            (keyword "x" (keyword "type" (j_str (codes "null"))))
            no_fields)))
    ≡ made (codes "\"{\" jws \"\\\"x\\\"\" jws \":\" jws \"null\" jws \"}\"") no_uses
unfolding sgb_value unknown_key is_known is_annotation same_bytes c_string node json_get get_field
    typed sgb_object required_bad count_fields members json_string_lit lit_bytes lit_byte
object_test = refl

json_string_lit-json_string_example :
    literal
        (fuel_for (json_string (34 ∷ 127 ∷ [])) 1)
        []
        0
        0
        (behind_quote (json_string_lit (34 ∷ 127 ∷ []) ++ codes " jws"))
      ≡ ok (push_bytes [] 0 0 (json_string (34 ∷ 127 ∷ [])), codes " jws")
    × string_raw (json_string (34 ∷ 127 ∷ [])) ≡ got (34 ∷ 127 ∷ [], [])
json_string_lit-json_string_example =
    json_string_lit-json_string (34 ∷ 127 ∷ []) (codes " jws") 0 [] 0 0
      ((omega arith, omega arith), ((omega arith, omega arith), tt)) (omega arith)

schema_to_gbnf-nested_example :
    (text : List ℕ) × (t : List ℕ) × (u : Uses) × (length text ≡ 767)
    × (schema_to_gbnf natural no_number text ≡ got (made t u))
    × (2 ^ 30 ≤ length t)
schema_to_gbnf-nested_example = schema_to_gbnf-nested natural no_number 30 (omega arith)
