-- ===== src/Container/Find.antt =====
-- `qwn_find` and `qwn_tensor_at` of c/qwanto_native.c.
pub mod Names
pub mod Complete
pub mod Laws
use qwanto.Base.{
  ℕ, zero, suc, ◌+◌, ◌-◌, ◌/◌, Bool, true, false, ◌&&◌, Option, none, some, List, [], ◌∷◌,
  get_elem?, take, ltb, ◌==◌, if◌then◌else◌, c_string, length,
}
use qwanto.Container.Desc.{TensorDesc}
use qwanto.Container.Model.{Entry, Model}
use qwanto.Container.Open.{same_bytes, hash_name, inline_descs}

-- `strcmp(t->name, name) == 0`, where `name` is the bytes of the C string that is asked for.
unfoldable pub name_is : List ℕ → TensorDesc → Bool
name_is name t = same_bytes (c_string t.name) name

-- The scan of the inline index beside its hashes.
unfoldable pub find_inline : ℕ → List ℕ → List ℕ → List TensorDesc → Option TensorDesc
find_inline h name [] ts = none
find_inline h name (x ∷ hs) [] = none
find_inline h name (x ∷ hs) (t ∷ ts) =
    let rest = find_inline h name hs ts in if x == h && name_is name t then some t else rest

-- `overflow_hashes[i]`; the code reads only indices below the count.
unfoldable pub hash_at : List Entry → ℕ → ℕ
hash_at es i = elim (get_elem? es i) [ none ↦ 0 | some e ↦ e.hash ]

-- The binary search, with `end` for `hi + 1`, so that `lo <= hi` is `lo < end`. It gives the index at
-- which the hashes are equal. The count goes down at each round, so it serves as fuel. With fewer than
-- 2^30 entries no int32_t wraps.
unfoldable pub search : List Entry → ℕ → ℕ → ℕ → ℕ → Option ℕ
search es h zero lo end = none
search es h (suc fuel) lo end =
    let mid = (lo + end - 1) / 2 in
    let right = search es h fuel (mid + 1) end in
    let left = search es h fuel lo mid in
    if ltb lo end
    then (if ltb (hash_at es mid) h
        then right
        else if ltb h (hash_at es mid)
        then left
        else some mid)
    else none

-- `overflow_descs[i]`, if its name is the one that is asked for.
unfoldable pub desc_named : List Entry → List ℕ → ℕ → Option TensorDesc
desc_named es name i = elim (get_elem? es i) [
  | none ↦ none
  | some e ↦ if name_is name e.desc then some e.desc else none
]

abbrev pub or_else {ℓ} : {A : Type ℓ} → Option A → Option A → Option A
or_else (some a) o = some a
or_else none o = o

-- `for (j = mid - 1; j >= 0 && hashes[j] == h; j--)`, with `j + 1` rounds left.
unfoldable pub scan_down : List Entry → ℕ → List ℕ → ℕ → Option TensorDesc
scan_down es h name zero = none
scan_down es h name (suc j) =
    let rest = scan_down es h name j in
    if hash_at es j == h then or_else (desc_named es name j) rest else none

-- `for (j = mid + 1; j < count && hashes[j] == h; j++)`, with `n` rounds left.
unfoldable pub scan_up : List Entry → ℕ → List ℕ → ℕ → ℕ → Option TensorDesc
scan_up es h name zero j = none
scan_up es h name (suc n) j =
    let rest = scan_up es h name n (j + 1) in
    if hash_at es j == h then or_else (desc_named es name j) rest else none

-- What follows an equal hash at `mid`.
unfoldable pub around : List Entry → ℕ → List ℕ → ℕ → ℕ → Option TensorDesc
around es h name count mid =
    or_else (desc_named es name mid)
      (or_else (scan_down es h name mid) (scan_up es h name (count - (mid + 1)) (mid + 1)))

unfoldable pub find_overflow : List Entry → ℕ → List ℕ → ℕ → Option TensorDesc
find_overflow es h name count = elim (search es h count 0 count) [
  | none ↦ none
  | some mid ↦ around es h name count mid
]

-- `qwn_find`
unfoldable pub find : Model → List ℕ → Option TensorDesc
find m name =
    let h = hash_name name in
    or_else (find_inline h name m.inline_hashes (inline_descs m))
      (find_overflow m.overflow h name m.overflow_count)

-- `qwn_tensor_at`
unfoldable pub tensor_at : Model → ℕ → Option TensorDesc
tensor_at m i =
    if ltb i m.hdr.inline_count
    then get_elem? m.hdr.inline_index i
    else elim (get_elem? m.overflow (i - m.hdr.inline_count)) [ none ↦ none | some e ↦ some e.desc ]
