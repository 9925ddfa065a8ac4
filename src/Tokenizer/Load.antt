-- ===== src/Tokenizer/Load.antt =====
-- `tok_load_memory` of c/tok.h.
pub mod Tables
pub mod Loaded
mod Tests
use qwanto.Base.{
  ℕ, zero, suc, ◌+◌, ◌-◌, ◌^◌, ◌&&◌, not, Bool, true, false, Option, none, some, List, [], ◌∷◌,
  ◌++◌, length, map, max, set, replicate, slot, ltb, leb, c_string, codes, if◌then◌else◌,
}
use qwanto.Json.{
  Jval, j_arr, j_obj, j_num, j_str, Items, no_items, item, Fields, no_fields, field, json_get,
}
use qwanto.Tokenizer.{Tok}
use qwanto.Tokenizer.HashMap.{HMap, hm_get, map_of}

-- What the document holds: the pairs of `vocab`, those of `merges`, and the added tokens.
pub record Source : Type 0 where
  pub vocab : List (List ℕ × ℕ)
  pub merges : List (List ℕ × List ℕ)
  pub added : List (List ℕ × ℕ)

-- A key of `merges`, and its rank.
unfoldable pub ranked : ℕ → List (List ℕ × List ℕ) → List (List ℕ × ℕ)
ranked i [] = []
ranked i (x ∷ xs) = (x.0 ++ (0 ∷ x.1), i) ∷ ranked (suc i) xs

unfoldable pub max_id : List (List ℕ × ℕ) → ℕ → ℕ
max_id [] m = m
max_id (x ∷ xs) m = max_id xs (if ltb m x.1 then x.1 else m)

-- An array of `id2str` and `id_added`, where `none` is NULL.
abbrev pub Strings : Type 0
Strings = List (Option (List ℕ × Bool))

unfoldable pub write_ids : Bool → List (List ℕ × ℕ) → Strings → Strings
write_ids is_added [] t = t
write_ids is_added (x ∷ xs) t = write_ids is_added xs (set t x.1 (some (x.0, is_added)))

-- The ids and twice the numbers of entries fit int: `maxid + 1`, `len*2` and the powers of two that are
-- searched for do not overflow.
unfoldable pub in_int : Source → Bool
in_int S =
    ltb (max_id S.added (max_id S.vocab 0)) (2 ^ 31 - 1)
    && ltb (length S.vocab) (2 ^ 29)
    && ltb (length S.merges) (2 ^ 29)

unfoldable pub strings : Source → Strings
strings S =
    let maxid = max_id S.added (max_id S.vocab 0) in
    write_ids true S.added (write_ids false S.vocab (replicate (suc maxid) none))

-- qsort with `cmp_sp_len`; the order of texts of one length is qsort's own.
unfoldable pub insert_sp : List ℕ × ℕ → List (List ℕ × ℕ) → List (List ℕ × ℕ)
insert_sp x [] = x ∷ []
insert_sp x (y ∷ ys) = if ltb (length x.0) (length y.0) then y ∷ insert_sp x ys else x ∷ y ∷ ys

unfoldable pub sort_sp : List (List ℕ × ℕ) → List (List ℕ × ℕ)
sort_sp [] = []
sort_sp (x ∷ xs) = insert_sp x (sort_sp xs)

-- The value of a lookup; that of a loop without an end is none.
abbrev pub looked_up : Option (Option ℕ) → Option ℕ
looked_up none = none
looked_up (some v) = v

-- The tables that are built, with those of tok_unicode.h; `none` is a loop without an end or an int that
-- overflows. The allocations succeed.
unfoldable pub build_tables : (is_l is_n is_s : ℕ → Bool) → Source → Option Tok
build_tables is_l is_n is_s S = if not (in_int S) then none else elim (map_of S.vocab) [
  | none ↦ none
  | some v ↦ elim (map_of (ranked 0 S.merges)) [
    | none ↦ none
    | some m ↦ some (record {
      vocab = λ k. looked_up (hm_get v k);
      merges = λ k. looked_up (hm_get m k);
      id2str = λ id. slot (strings S) id;
      sp = sort_sp S.added;
      is_l = is_l;
      is_n = is_n;
      is_s = is_s;
    })
  ]
]

infixl 5 ◌>>=◌
abbrev ◌>>=◌ : {A B : Type 0} → Option A → (A → Option B) → Option B
none >>= f = none
some a >>= f = f a

-- The document; `none` is one on which the code exits or that has another shape. The cast of a double to int
-- is a parameter, and an id below 0 is none.
module _ {D : Type 0} (to_int : D → Option ℕ) where
  unfoldable pub vocab_of : Fields D → Option (List (List ℕ × ℕ))
  vocab_of no_fields = some []
  vocab_of (field k (j_num x) fs) = do
    id ← to_int x
    others ← vocab_of fs
    some ((c_string k, id) ∷ others)
  vocab_of (field k _ fs) = none

  unfoldable pub merges_of : Items D → Option (List (List ℕ × List ℕ))
  merges_of no_items = some []
  merges_of (item (j_arr (item (j_str l) (item (j_str r) xs))) ys) = do
    others ← merges_of ys
    some ((c_string l, c_string r) ∷ others)
  merges_of (item _ ys) = none

  unfoldable pub added_token : Option (Jval D) → Option (Jval D) → Option (List ℕ × ℕ)
  added_token (some (j_str content)) (some (j_num x)) = do
    id ← to_int x
    some (c_string content, id)
  added_token _ _ = none

  unfoldable pub added_of : Items D → Option (List (List ℕ × ℕ))
  added_of no_items = some []
  added_of (item a xs) = do
    x ← added_token (json_get a (codes "content")) (json_get a (codes "id"))
    others ← added_of xs
    some (x ∷ others)

  unfoldable pub added_tokens : Option (Jval D) → Option (List (List ℕ × ℕ))
  added_tokens none = some []
  added_tokens (some (j_arr xs)) = added_of xs
  added_tokens (some _) = none

  unfoldable pub source_parts : Option (Jval D) → Option (Jval D) → Option (Jval D) → Option Source
  source_parts (some (j_obj vs)) (some (j_arr ms)) added = do
    v ← vocab_of vs
    m ← merges_of ms
    a ← added_tokens added
    some (record { vocab = v; merges = m; added = a })
  source_parts _ _ added = none

  unfoldable pub source_of : Jval D → Option Source
  source_of root = do
    model ← json_get root (codes "model")
    source_parts (json_get model (codes "vocab")) (json_get model (codes "merges"))
        (json_get root (codes "added_tokens"))

  -- `tok_load_memory`, behind the parse.
  unfoldable pub tok_load : (is_l is_n is_s : ℕ → Bool) → Jval D → Option Tok
  tok_load is_l is_n is_s root = do S ← source_of root; build_tables is_l is_n is_s S
