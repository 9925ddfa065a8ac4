-- ===== src/Json/Parse.antt =====
-- `j_parse_val` and `json_parse` of c/json.h.
use qwanto.Base.{
  ℕ, zero, suc, ◌+◌, ◌*◌, Bool, true, false, Option, none, some, List, [], ◌∷◌, length, leb, ◌==◌,
  if◌then◌else◌,
}
use qwanto.Json.{
  Jval, j_null, j_bool, j_num, j_str, j_arr, j_obj, Items, no_items, item, Fields, no_fields, field,
  Scan, got, over_read, out_of_fuel, ◌>>=◌, skip_ws, j_max_depth,
}
use qwanto.Json.Strings.{string_raw}

-- A place in the text; `none` is one behind the NUL.
abbrev pub Place : Type 0
Place = Option (List ℕ)

unfoldable pub advance : ℕ → List ℕ → Place
advance zero p = some p
advance (suc k) [] = none
advance (suc k) (c ∷ p) = advance k p

-- What is read next at a place.
abbrev pub reading : {A : Type 0} → Place → (List ℕ → Scan A) → Scan A
reading none f = over_read
reading (some p) f = f p

-- The byte at the front is `c`.
abbrev pub starts : ℕ → List ℕ → Bool
starts c [] = false
starts c (x ∷ p) = x == c

abbrev pub tail : List ℕ → List ℕ
tail [] = []
tail (x ∷ p) = p

unfoldable pub after_colon : List ℕ → List ℕ
after_colon p = if starts b':' p then tail p else p

-- What the first byte of a value says.
pub data Kind : Type 0 where
  quote brace bracket t_ f_ n_ number : Kind

unfoldable pub kind : List ℕ → Kind
kind p =
    if starts 34 p
    then quote
    else if starts b'{' p
    then brace
    else if starts b'[' p
    then bracket
    else if starts b't' p
    then t_
    else if starts b'f' p
    then f_
    else if starts b'n' p
    then n_
    else number

-- What follows a value in an object or an array that `close` ends.
pub data Next : Type 0 where
  comma closes breaks : Next

unfoldable pub next : ℕ → List ℕ → Next
next close p = if starts b',' p then comma else if starts close p then closes else breaks

module _ {D : Type 0} where
  -- What follows a value in an object, where `more` reads the other members.
  unfoldable pub fields_next :
      (List ℕ → Scan (Fields D × Place)) → List ℕ → Jval D → List ℕ → Scan (Fields D × Place)
  fields_next more key v p = elim (next b'}' p) [
    | comma ↦ more (tail p) >>= λ x. got (field key v x.0, x.1)
    | closes ↦ got (field key v no_fields, some (tail p))
    | breaks ↦ got (field key v no_fields, some p)
  ]

  -- The same in an array.
  unfoldable pub items_next :
      (List ℕ → Scan (Items D × Place)) → Jval D → List ℕ → Scan (Items D × Place)
  items_next more v p = elim (next b']' p) [
    | comma ↦ more (tail p) >>= λ x. got (item v x.0, x.1)
    | closes ↦ got (item v no_items, some (tail p))
    | breaks ↦ got (item v no_items, some p)
  ]

  -- What stands behind an opening bracket; the loop starts at `q`.
  unfoldable pub object_body : (List ℕ → Scan (Fields D × Place)) → List ℕ → Scan (Jval D × Place)
  object_body loop q = elim (starts b'}' q) [
    | true ↦ got (j_obj no_fields, some (tail q))
    | false ↦ loop q >>= λ x. got (j_obj x.0, x.1)
  ]

  unfoldable pub array_body : (List ℕ → Scan (Items D × Place)) → List ℕ → Scan (Jval D × Place)
  array_body loop q = elim (starts b']' q) [
    | true ↦ got (j_arr no_items, some (tail q))
    | false ↦ loop q >>= λ x. got (j_arr x.0, x.1)
  ]

-- `strtod`: the double, and the text from `end` on.
module _ {D : Type 0} (strtod : List ℕ → D × List ℕ) where
  -- `j_parse_val` behind the white space, at the depth `d`, with the loops of an object and an array.
  unfoldable pub value_at :
      (List ℕ → Scan (Fields D × Place))
      → (List ℕ → Scan (Items D × Place))
      → ℕ
      → List ℕ
      → Scan (Jval D × Place)
  value_at members elements d p = elim (kind p) [
    | quote ↦ string_raw p >>= λ x. got (j_str x.0, some x.1)
    | brace ↦ elim (leb j_max_depth d) [
      | true ↦ got (j_null, some p)
      | false ↦ object_body members (skip_ws (tail p))
    ]
    | bracket ↦ elim (leb j_max_depth d) [
      | true ↦ got (j_null, some p)
      | false ↦ array_body elements (skip_ws (tail p))
    ]
    | t_ ↦ got (j_bool true, advance 4 p)
    | f_ ↦ got (j_bool false, advance 5 p)
    | n_ ↦ got (j_null, advance 4 p)
    | number ↦ let x = strtod p in got (j_num x.0, some x.1)
  ]

  -- Each call costs a unit of fuel.
  unfoldable mutual
    -- `j_parse_val`
    pub value : ℕ → ℕ → List ℕ → Scan (Jval D × Place)
    value zero d text = out_of_fuel
    value (suc n) d text = value_at (fields n (d + 1)) (items n (d + 1)) d (skip_ws text)

    -- The loop of an object.
    pub fields : ℕ → ℕ → List ℕ → Scan (Fields D × Place)
    fields zero d text = out_of_fuel
    fields (suc n) d text = string_raw (skip_ws text) >>= λ key.
        value n d (after_colon (skip_ws key.1)) >>= λ v.
        reading v.1 λ rest. fields_next (fields n d) key.0 v.0 (skip_ws rest)

    -- The loop of an array.
    pub items : ℕ → ℕ → List ℕ → Scan (Items D × Place)
    items zero d text = out_of_fuel
    items (suc n) d text =
        value n d text >>= λ v. reading v.1 λ rest. items_next (items n d) v.0 (skip_ws rest)

  -- `json_parse`
  unfoldable pub json_parse : List ℕ → Scan (Jval D)
  json_parse text = value (2 * length text + 1) 0 text >>= λ x. got x.0
