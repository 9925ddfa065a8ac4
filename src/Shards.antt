-- ===== src/Shards.antt =====
-- The index of safetensors files of c/st.h: what `st_init` takes from a header.
pub mod Table
pub mod Bounds
pub mod Read
mod Tests
use qwanto.Base.{
  ℕ, zero, suc, ◌+◌, ◌-◌, ◌*◌, ◌%◌, ◌^◌, ℤ, pos, negsuc, Bool, true, false, ◌||◌, Option, none,
  some, List, [], ◌∷◌, ◌++◌, length, take, drop, ltb, ◌==◌, if◌then◌else◌, c_string, codes, u64,
  is_negative,
}
use qwanto.Container.Open.{same_bytes}
use qwanto.Container.Image.{Image, bytes_at, u64_at}
use qwanto.Json.{
  Jval, j_num, j_str, j_arr, j_obj, Items, no_items, item, Fields, no_fields, field, Scan, got,
  over_read, out_of_fuel, json_get,
}
use qwanto.Json.Parse.{json_parse}

-- `ST_MAX_HEADER`
abbrev pub max_header : ℕ
max_header = 512 * 2 ^ 20

-- `st_tensor`. The offset and the number of elements are the 64 bits of an int64_t.
pub record StTensor : Type 0 where
  pub name : List ℕ
  pub fd : ℕ
  pub off : ℕ
  pub nbytes : ℕ
  pub dtype : ℕ
  pub numel : ℕ

-- A file that is open: its descriptor, its size, and the bytes that `pread` gives.
pub record ShardFile : Type 0 where
  pub shard_fd : ℕ
  pub size : ℕ
  pub bytes : Image

-- `exits` is a call of exit, after a message; the others are those of the JSON reader.
pub data Init (A : Type 0) : Type 0 where
  ready : A → Init A
  exits : Init A
  read_behind : Init A
  no_fuel : Init A

infixl 5 ◌>>=◌
abbrev pub ◌>>=◌ : {A B : Type 0} → Init A → (A → Init B) → Init B
ready a >>= f = f a
exits >>= f = exits
read_behind >>= f = read_behind
no_fuel >>= f = no_fuel

-- `exit` where there is no value.
abbrev pub demand : {A : Type 0} → Option A → Init A
demand none = exits
demand (some a) = ready a

abbrev pub scanned : {A : Type 0} → Scan A → Init A
scanned (got a) = ready a
scanned over_read = read_behind
scanned out_of_fuel = no_fuel

-- `st_dtype_code`
unfoldable pub dtype_code : List ℕ → Option ℕ
dtype_code s =
    if same_bytes s (codes "BF16")
    then some 0
    else if same_bytes s (codes "F16")
    then some 1
    else if same_bytes s (codes "F32")
    then some 2
    else if same_bytes s (codes "U8")
    then some 3
    else if same_bytes s (codes "I8")
    then some 3
    else none

-- The bits of an int64_t.
abbrev pub bits : ℤ → ℕ
bits (pos n) = n
bits (negsuc n) = 2 ^ 64 - (n + 1)

-- The sum of two int64_t that are not negative, above a third: a sum that wraps is negative.
unfoldable pub sum_above : ℕ → ℕ → ℕ → Bool
sum_above a b limit = if ltb (a + b) (2 ^ 63) then ltb limit (a + b) else false

-- The bounds of the offsets of a tensor: the first two elements of data_offsets.
unfoldable pub offsets : ℕ → ℕ → ℤ → ℤ → Option (ℕ × ℕ)
offsets data_start fsz (pos a) (pos b) =
    if ltb b a || sum_above data_start b fsz then none else some (a, b)
offsets data_start fsz a b = none

module _ {D : Type 0} where
  -- A value of type J_STR.
  unfoldable pub string_of : Option (Jval D) → Option (List ℕ)
  string_of (some (j_str s)) = some (c_string s)
  string_of _ = none

  -- A value of type J_ARR.
  unfoldable pub array_of : Option (Jval D) → Option (Items D)
  array_of (some (j_arr xs)) = some xs
  array_of _ = none

  -- The first two of an array that has them.
  unfoldable pub first_two : Items D → Option (Jval D × Jval D)
  first_two (item a (item b xs)) = some (a, b)
  first_two _ = none

  -- A header that is an object.
  unfoldable pub object_of : Jval D → Option (Fields D)
  object_of (j_obj fs) = some fs
  object_of _ = none

-- `to_int64` is the cast of a double to int64_t.
module _ {D : Type 0} (to_int64 : D → ℤ) where
  -- The cast of `num`, which is 0 in a value that is no number.
  unfoldable pub int_of : Jval D → ℤ
  int_of (j_num x) = to_int64 x
  int_of _ = pos 0

  -- The product of the dimensions, in 64 bits.
  unfoldable pub numel_of : ℕ → Items D → ℕ
  numel_of n no_items = n
  numel_of n (item x xs) = numel_of (u64 (n * bits (int_of x))) xs

  -- One member of the header that is not __metadata__.
  unfoldable pub index_tensor : ℕ → ℕ → ℕ → List ℕ → Jval D → Init StTensor
  index_tensor fd fsz data_start name m = do
    dt ← demand (string_of (json_get m (codes "dtype")))
    off ← demand (array_of (json_get m (codes "data_offsets")))
    ends ← demand (first_two off)
    shp ← demand (array_of (json_get m (codes "shape")))
    ab ← demand (offsets data_start fsz (int_of ends.0) (int_of ends.1))
    code ← demand (dtype_code dt)
    ready (record {
      name = c_string name;
      fd = fd;
      off = data_start + ab.0;
      nbytes = ab.1 - ab.0;
      dtype = code;
      numel = numel_of 1 shp;
    })

  -- The members of a header, behind the tensors of the files before.
  unfoldable pub index_fields : ℕ → ℕ → ℕ → List StTensor → Fields D → Init (List StTensor)
  index_fields fd fsz data_start ts no_fields = ready ts
  index_fields fd fsz data_start ts (field name m fs) =
      elim (same_bytes (c_string name) (codes "__metadata__")) [
        | true ↦ index_fields fd fsz data_start ts fs
        | false ↦ index_tensor fd fsz data_start name m >>= λ t.
            index_fields fd fsz data_start (ts ++ (t ∷ [])) fs
      ]

  module _ (strtod : List ℕ → D × List ℕ) where
    -- One file. The header is read up to its first NUL, where it has one; a read behind it, which is one behind
    -- the buffer where the header has no NUL, is `read_behind`.
    unfoldable pub index_file : ShardFile → List StTensor → Init (List StTensor)
    index_file f ts =
        let hlen = u64_at f.bytes 0 in
        let parsed = json_parse strtod (c_string (bytes_at f.bytes hlen 8)) in
        elim (ltb f.size 8 || (ltb (f.size - 8) hlen || ltb max_header hlen)) [
          | true ↦ exits
          | false ↦ scanned parsed >>= λ root.
              demand (object_of root) >>= λ fs. index_fields f.shard_fd f.size (8 + hlen) ts fs
        ]

    -- The files in the order of their names.
    unfoldable pub index_files : List ShardFile → List StTensor → Init (List StTensor)
    index_files [] ts = ready ts
    index_files (f ∷ fs) ts = index_file f ts >>= λ more. index_files fs more
