-- ===== src/Json.antt =====
-- The JSON reader of c/json.h: its values, the outcome of a scan, and white space. A text is its bytes
-- before the NUL.
pub mod Strings
pub mod Parse
pub mod Document
pub mod Ends
pub mod Terminates
pub mod Quoted
pub mod Shapes
pub mod Steps
pub mod Reads
mod Tests
use qwanto.Base.{
  ℕ, zero, suc, Bool, true, false, ◌&&◌, ◌||◌, Option, none, some, List, [], ◌∷◌, leb, ◌==◌,
  c_string,
}
use qwanto.Container.Open.{same_bytes}

-- `jval`. `D` stands for the doubles. A string is what `j_dup` copies, without the NUL behind it.
mutual
  pub data Jval (D : Type 0) : Type 0 where
    j_null : Jval D
    j_bool : Bool → Jval D
    j_num : D → Jval D
    j_str : List ℕ → Jval D
    j_arr : Items D → Jval D
    j_obj : Fields D → Jval D

  pub data Items (D : Type 0) : Type 0 where
    no_items : Items D
    item : Jval D → Items D → Items D

  pub data Fields (D : Type 0) : Type 0 where
    no_fields : Fields D
    field : List ℕ → Jval D → Fields D → Fields D

-- `over_read` stands for a read behind the NUL of the text, and `out_of_fuel` for nothing in the code.
pub data Scan (A : Type 0) : Type 0 where
  got : A → Scan A
  over_read : Scan A
  out_of_fuel : Scan A

infixl 5 ◌>>=◌
abbrev pub ◌>>=◌ : {A B : Type 0} → Scan A → (A → Scan B) → Scan B
got a >>= f = f a
over_read >>= f = over_read
out_of_fuel >>= f = out_of_fuel

-- `isspace` in the C locale
abbrev pub is_space : ℕ → Bool
is_space c = (leb 9 c && leb c 13) || (c == 32)

-- `j_ws`
unfoldable pub skip_ws : List ℕ → List ℕ
skip_ws [] = []
skip_ws (c ∷ p) = elim (is_space c) [ true ↦ skip_ws p | false ↦ c ∷ p ]

-- `J_MAX_DEPTH`
abbrev pub j_max_depth : ℕ
j_max_depth = 1024

-- The loop of `json_get`.
unfoldable pub get_field : {D : Type 0} → List ℕ → Fields D → Option (Jval D)
get_field key no_fields = none
get_field key (field k v fs) = elim (same_bytes (c_string k) key) [
  | true ↦ some v
  | false ↦ get_field key fs
]

-- `json_get`, at a value that is not NULL; the key is its bytes before the NUL.
unfoldable pub json_get : {D : Type 0} → Jval D → List ℕ → Option (Jval D)
json_get (j_obj fs) key = get_field key fs
json_get _ key = none
