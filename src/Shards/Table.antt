-- ===== src/Shards/Table.antt =====
-- The hash table of c/st.h: how `st_init` builds it, and how `st_find` looks a name up.
pub mod Probes
pub mod Finds
pub mod Agrees
use qwanto.Base.{
  slot, ℕ, zero, suc, ◌+◌, ◌*◌, ◌%◌, Bool, true, false, Option, none, some, List, [], ◌∷◌, length,
  get_or, set, replicate, ltb, fnv1a, c_string, if◌then◌else◌,
}
use qwanto.Container.Open.{same_bytes}
use qwanto.Shards.{StTensor}

-- `st_hash`
unfoldable pub st_hash : List ℕ → ℕ
st_hash name = fnv1a 1469598103934665603 (c_string name)

-- Read out of the range of the tensors, which the code does not do.
abbrev no_tensor : StTensor
no_tensor = record { name = []; fd = 0; off = 0; nbytes = 0; dtype = 0; numel = 0 }

unfoldable pub tensor : List StTensor → ℕ → StTensor
tensor ts i = get_or ts i no_tensor

-- The capacity: the first power of two, from 1 on, that is not below `n * 2`.
unfoldable pub grow : ℕ → ℕ → ℕ → ℕ
grow zero hcap n = hcap
grow (suc fuel) hcap n = elim (ltb hcap (n * 2)) [ true ↦ grow fuel (hcap * 2) n | false ↦ hcap ]

unfoldable pub capacity : ℕ → ℕ
capacity n = grow (n * 2) 1 n

-- The capacity is a power of two, so that the mask with `hcap - 1` is the remainder.
module _ (hcap : ℕ) where
  -- The loop that places the index `i`, from the slot `h` on; `none` is no end of the loop.
  unfoldable pub insert : ℕ → List (Option ℕ) → ℕ → ℕ → Option (List (Option ℕ))
  insert zero hidx h i = none
  insert (suc n) hidx h i = elim (slot hidx h) [
    | none ↦ some (set hidx h (some i))
    | some j ↦ insert n hidx ((h + 1) % hcap) i
  ]

  -- The tensors from the index `i` on, into the table.
  unfoldable pub build : List StTensor → ℕ → List (Option ℕ) → Option (List (Option ℕ))
  build [] i hidx = some hidx
  build (t ∷ ts) i hidx = elim (insert hcap hidx (st_hash t.name % hcap) i) [
    | none ↦ none
    | some more ↦ build ts (i + 1) more
  ]

-- What a lookup gives: the index of a tensor, or NULL.
pub data Lookup : Type 0 where
  at : ℕ → Lookup
  null : Lookup
  out_of_fuel : Lookup

abbrev pub named : List StTensor → List ℕ → ℕ → Bool
named ts name i = same_bytes (tensor ts i).name name

-- The loop of `st_find` on the table, from the slot `h` on.
unfoldable pub probe : List StTensor → List (Option ℕ) → List ℕ → ℕ → ℕ → Lookup
probe ts hidx name zero h = out_of_fuel
probe ts hidx name (suc n) h = elim (slot hidx h) [
  | none ↦ null
  | some i ↦ elim (named ts name i) [
    | true ↦ at i
    | false ↦ probe ts hidx name n ((h + 1) % length hidx)
  ]
]

-- The loop of `st_find` without a table, over `n` tensors from the index `i` on.
unfoldable pub scan : List StTensor → List ℕ → ℕ → ℕ → Lookup
scan ts name zero i = null
scan ts name (suc n) i = elim (named ts name i) [ true ↦ at i | false ↦ scan ts name n (i + 1) ]

-- The table that `st_init` builds behind the tensors; `none` is no end of a loop.
unfoldable pub index_of : List StTensor → Option (List (Option ℕ))
index_of ts = let hcap = capacity (length ts) in build hcap ts 0 (replicate hcap none)

-- `st_find`; the name is the bytes of a C string, and `none` is a table that is not there.
unfoldable pub st_find : List StTensor → Option (List (Option ℕ)) → List ℕ → Lookup
st_find ts none name = scan ts name (length ts) 0
st_find ts (some hidx) name = probe ts hidx name (length hidx) (st_hash name % length hidx)
