-- ===== src/Tokenizer/HashMap.antt =====
-- The hash map of c/tok.h.
pub mod Seeks
pub mod Lookups
pub mod Filled
use qwanto.Base.{
  ℕ, zero, suc, ◌+◌, ◌*◌, ◌%◌, bit_xor, true, false, Option, none, some, List, [], ◌∷◌, length, set,
  replicate, slot, fnv1a, u64,
}
use qwanto.Container.Open.{same_bytes}
use qwanto.Shards.Table.{capacity}

-- The first loop of `tk_fnv`, over words of four bytes with the lowest first, and the second.
unfoldable pub tk_fnv_from : ℕ → List ℕ → ℕ
tk_fnv_from h (a ∷ b ∷ c ∷ d ∷ s) =
    let w = a + b * 0x100 + c * 0x10000 + d * 0x1000000 in
    tk_fnv_from (u64 (bit_xor h w * 1099511628211)) s
tk_fnv_from h s = fnv1a h s

unfoldable pub tk_fnv : List ℕ → ℕ
tk_fnv s = tk_fnv_from 1469598103934665603 s

-- `hmap`: the slots, with the key and the value of those that are used. The capacity is a power of two, so
-- that the mask with `cap - 1` is the remainder.
abbrev pub HMap : Type 0
HMap = List (Option (List ℕ × ℕ))

unfoldable pub hm_init : ℕ → HMap
hm_init cap = replicate cap none

-- The loop of `hm_put`, from the slot `h` on; `none` is no end of the loop.
unfoldable pub put_from : ℕ → HMap → ℕ → List ℕ → ℕ → Option HMap
put_from zero m h k v = none
put_from (suc n) m h k v = elim (slot m h) [
  | none ↦ some (set m h (some (k, v)))
  | some e ↦ elim (same_bytes e.0 k) [
    | true ↦ some (set m h (some (e.0, v)))
    | false ↦ put_from n m ((h + 1) % length m) k v
  ]
]

unfoldable pub hm_put : HMap → List ℕ → ℕ → Option HMap
hm_put m k v = put_from (length m) m (tk_fnv k % length m) k v

-- The loop of `hm_get`: the value, or -1 as the inner `none`; the outer `none` is no end of the loop.
unfoldable pub get_from : ℕ → HMap → ℕ → List ℕ → Option (Option ℕ)
get_from zero m h k = none
get_from (suc n) m h k = elim (slot m h) [
  | none ↦ some none
  | some e ↦ elim (same_bytes e.0 k) [
    | true ↦ some (some e.1)
    | false ↦ get_from n m ((h + 1) % length m) k
  ]
]

unfoldable pub hm_get : HMap → List ℕ → Option (Option ℕ)
hm_get m k = get_from (length m) m (tk_fnv k % length m) k

-- A map for the pairs of a list, with the capacity of `tok_load_memory`. For fewer than 2^29 pairs, as
-- `tok_load_memory` is modelled for, `len*2` and the power of two fit int.
unfoldable pub put_all : HMap → List (List ℕ × ℕ) → Option HMap
put_all m [] = some m
put_all m (x ∷ xs) = elim (hm_put m x.0 x.1) [ none ↦ none | some more ↦ put_all more xs ]

unfoldable pub map_of : List (List ℕ × ℕ) → Option HMap
map_of xs = put_all (hm_init (capacity (length xs))) xs
