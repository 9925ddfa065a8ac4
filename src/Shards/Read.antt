-- ===== src/Shards/Read.antt =====
-- The extents that the readers of c/st.h pass to `pread` and `posix_fadvise`.
use qwanto.Base.{ℕ, ◌+◌, ◌*◌, Option, none, some, List, ◌==◌, if◌then◌else◌}
use qwanto.Shards.{StTensor}
use qwanto.Shards.Table.{Lookup, at, null, out_of_fuel, tensor, st_find}

-- A descriptor, an offset and a length.
pub record Extent : Type 0 where
  pub extent_fd : ℕ
  pub start : ℕ
  pub count : ℕ

-- The tensor that a lookup gives; `none` is NULL.
unfoldable pub found : List StTensor → Lookup → Option StTensor
found ts (at i) = some (tensor ts i)
found ts null = none
found ts out_of_fuel = none

module _ (ts : List StTensor) (hidx : Option (List (Option ℕ))) where
  -- `st_numel` and `st_nbytes`; `none` is -1.
  unfoldable pub st_numel : List ℕ → Option ℕ
  st_numel name = elim (found ts (st_find ts hidx name)) [ none ↦ none | some t ↦ some t.numel ]

  unfoldable pub st_nbytes : List ℕ → Option ℕ
  st_nbytes name = elim (found ts (st_find ts hidx name)) [ none ↦ none | some t ↦ some t.nbytes ]

  -- What `st_read_raw`, `st_read_f32` and `st_prefetch` cover; `none` is an exit, or no prefetch.
  unfoldable pub whole : List ℕ → Option Extent
  whole name = elim (found ts (st_find ts hidx name)) [
    | none ↦ none
    | some t ↦ some (record { extent_fd = t.fd; start = t.off; count = t.nbytes })
  ]

  -- What `st_read_slice_f32` reads, for products that do not wrap.
  unfoldable pub slice : List ℕ → ℕ → ℕ → Option Extent
  slice name elem_off n_elems = elim (found ts (st_find ts hidx name)) [
    | none ↦ none
    | some t ↦
        let esz = if t.dtype == 2 then 4 else 2 in
        some (record { extent_fd = t.fd; start = t.off + elem_off * esz; count = n_elems * esz })
  ]
