-- ===== src/Schema.antt =====
-- The compiler of JSON schemas to grammars of c/schema_gbnf.h. A call gives the text that it appends and
-- the terminal rules that it uses.
pub mod Compile
pub mod Literal
pub mod Growth
mod Tests
use qwanto.Base.{
  ℕ, zero, suc, ◌+◌, ◌/◌, ◌%◌, Bool, true, false, not, ◌&&◌, ◌||◌, Option, none, some, List, [],
  ◌∷◌, ◌++◌, length, ltb, ◌==◌, if◌then◌else◌, c_string, codes,
}
use qwanto.Container.Open.{same_bytes}
use qwanto.Json.{
  Jval, j_null, j_bool, j_num, j_str, j_arr, j_obj, Items, no_items, item, Fields, no_fields, field,
  Scan, got, ◌>>=◌, json_get,
}
use qwanto.Json.Parse.{json_parse}

-- The message of `sgb_fail`.
pub data Failure : Type 0 where
  empty_enum enum_member_type const_type missing_type nesting_too_deep : Failure
  object_without_properties required_not_an_array required_must_list_every_property : Failure
  property_not_in_required min_items_above_one array_without_items node_not_an_object : Failure
  unsupported : List ℕ → Failure

-- `use_str`, `use_num` and `use_int`
pub record Uses : Type 0 where
  pub str : Bool
  pub num : Bool
  pub int : Bool

abbrev pub no_uses : Uses
no_uses = record { str = false; num = false; int = false }

-- A context that has failed gives no text; the first message stays.
pub data Made : Type 0 where
  made : List ℕ → Uses → Made
  fails : Failure → Made

-- `sgb_put` of a text, with a realloc that succeeds.
abbrev pub emit : List ℕ → Made
emit t = made t no_uses

infixr 5 ◌then_emit◌
-- One call after another.
abbrev pub ◌then_emit◌ : Made → Made → Made
fails e then_emit b = fails e
made t u then_emit fails e = fails e
made t u then_emit made s v =
    made (t ++ s) (record { str = u.str || v.str; num = u.num || v.num; int = u.int || v.int })

-- A digit of `%02x`
abbrev hex_digit : ℕ → ℕ
hex_digit d = if ltb d 10 then 48 + d else 87 + d

-- One byte of a JSON string, as it stands in a literal.
unfoldable pub lit_byte : ℕ → List ℕ
lit_byte c =
    if c == 34
    then 92 ∷ 92 ∷ 92 ∷ 34 ∷ []
    else if c == 92
    then 92 ∷ 92 ∷ 92 ∷ 92 ∷ []
    else if ltb c 0x20 || (c == 0x7F)
    then 92 ∷ b'x' ∷ hex_digit (c / 16) ∷ hex_digit (c % 16) ∷ []
    else c ∷ []

unfoldable pub lit_bytes : List ℕ → List ℕ
lit_bytes [] = []
lit_bytes (c ∷ cs) = lit_byte c ++ lit_bytes cs

-- `sgb_put_json_string_lit`; the text is the bytes of a C string.
unfoldable pub json_string_lit : List ℕ → List ℕ
json_string_lit s = 34 ∷ 92 ∷ 34 ∷ lit_bytes s ++ (92 ∷ 34 ∷ 34 ∷ [])

-- `sgb_is_annotation`
unfoldable pub is_annotation : List ℕ → Bool
is_annotation k =
    same_bytes k (codes "$schema")
    || same_bytes k (codes "title")
    || same_bytes k (codes "description")
    || same_bytes k (codes "default")
    || same_bytes k (codes "examples")
    || same_bytes k (codes "additionalProperties")

unfoldable pub is_known : List ℕ → Bool
is_known k =
    same_bytes k (codes "type")
    || same_bytes k (codes "properties")
    || same_bytes k (codes "required")
    || same_bytes k (codes "items")
    || same_bytes k (codes "enum")
    || same_bytes k (codes "const")
    || same_bytes k (codes "minItems")
    || is_annotation k
