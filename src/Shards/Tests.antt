-- ===== src/Shards/Tests.antt =====
-- Runs of the safetensors index, and its theorems at concrete inputs.
use qwanto.Base.{
  slot, ℕ, ◌-◌, ◌≤◌, ◌≡◌, ◌⊎◌, pos, Option, none, some, List, [], ◌∷◌, ◌++◌, length, get_or, All,
  codes, c_string, fnv1a, arith, refl,
}
use qwanto.Container.Open.{same_bytes}
use qwanto.Container.Image.{bytes_at, le_at, u64_at}
use qwanto.Json.{skip_ws, get_field, json_get}
use qwanto.Json.Strings.{put, puts, raw, string_raw}
use qwanto.Json.Parse.{
  advance, after_colon, kind, next, fields_next, items_next, object_body, array_body, value_at,
  value, json_parse,
}
use qwanto.Shards.{
  exits, read_behind, StTensor, ShardFile, ready, offsets, sum_above, string_of, array_of,
  first_two, int_of, numel_of, dtype_code, index_tensor, index_fields, object_of, index_file,
  index_files,
}
use qwanto.Shards.Bounds.{InSome, index_files-Ends}
use qwanto.Shards.Read.{slice, whole, found}
use qwanto.Shards.Table.{index_of, st_find, capacity, grow, build, insert, st_hash, probe, tensor}
use qwanto.Shards.Table.Agrees.{st_find-index_of}

-- A number parser for one digit.
abbrev one_digit : List ℕ → ℕ × List ℕ
one_digit [] = (0, [])
one_digit (c ∷ p) = (c - 48, p)

one_digit-shorter : (p : List ℕ) → length (one_digit p).1 ≤ length p
one_digit-shorter [] = omega arith
one_digit-shorter (c ∷ p) = omega arith

abbrev header : List ℕ
header = codes "{\"w\":{\"dtype\":\"F32\",\"shape\":[1],\"data_offsets\":[0,4]}}"

-- The length of the header is 54.
abbrev one_tensor : ShardFile
one_tensor = record {
  shard_fd = 3;
  size = 66;
  bytes = λ i. get_or ((length header ∷ 0 ∷ 0 ∷ 0 ∷ 0 ∷ 0 ∷ 0 ∷ 0 ∷ []) ++ header) i 0;
}

index_files-Ends_example :
    (index_files pos one_digit (one_tensor ∷ []) [] ≡ exits)
    ⊎ (index_files pos one_digit (one_tensor ∷ []) [] ≡ read_behind)
    ⊎ ((ts : List StTensor) × (index_files pos one_digit (one_tensor ∷ []) [] ≡ ready ts)
        × All (InSome (one_tensor ∷ [])) ts)
unfolding bytes_at u64_at le_at c_string
index_files-Ends_example =
    index_files-Ends pos one_digit one_digit-shorter (one_tensor ∷ []) (refl, tt)

abbrev tensor_w : StTensor
tensor_w = record { name = codes "w"; fd = 3; off = 62; nbytes = 4; dtype = 2; numel = 1 }

abbrev two_tensors : List StTensor
two_tensors = tensor_w ∷ record tensor_w { name = codes "v" } ∷ tensor_w ∷ []

st_find-index_of_example :
    (xs : List (Option ℕ)) × (index_of two_tensors ≡ some xs)
    × (st_find two_tensors (some xs) (codes "w") ≡ st_find two_tensors none (codes "w"))
st_find-index_of_example = st_find-index_of two_tensors (codes "w")

eight_slots : capacity 3 ≡ 8
unfolding capacity grow
eight_slots = refl

indexed : index_files pos one_digit (one_tensor ∷ []) [] ≡ ready (tensor_w ∷ [])
unfolding index_files index_file u64_at le_at bytes_at json_parse value value_at kind skip_ws
    object_body array_body string_raw raw put puts after_colon fields_next items_next next advance
    c_string object_of index_fields index_tensor same_bytes json_get get_field string_of array_of
    first_two offsets sum_above int_of numel_of dtype_code
indexed = refl

-- The second tensor of the name is not the one that is found.
sliced :
    slice two_tensors (index_of two_tensors) (codes "w") 0 1
    ≡ some (record { extent_fd = 3; start = 62; count = 4 })
unfolding slice found st_find index_of build insert capacity grow slot st_hash fnv1a c_string probe
    same_bytes tensor
sliced = refl

unnamed : whole two_tensors (index_of two_tensors) (codes "x") ≡ none
unfolding whole found st_find index_of build insert capacity grow slot st_hash fnv1a c_string probe
    same_bytes tensor
unnamed = refl
