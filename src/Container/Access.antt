-- ===== src/Container/Access.antt =====
-- `qwn_read`, `qwn_data`, `qwn_prefetch`, `qwn_prefetch_batch` and `qwn_drop_pages` of
-- c/qwanto_native.c: which bytes of the mapping they touch (the POSIX branches).
pub mod Laws
use qwanto.Base.{
  ℕ, ◌+◌, ◌-◌, ◌%◌, Bool, true, false, ◌||◌, Option, none, some, List, [], ◌∷◌, ltb, if◌then◌else◌,
  u64,
}
use qwanto.Container.Desc.{TensorDesc}

-- A run of bytes, from an address (or an offset in the mapping).
pub record Range : Type 0 where
  pub start : ℕ
  pub len : ℕ

-- `qwn_read` into a buffer of `dst_bytes`: the run of the mapping that it copies; `none` is -1.
unfoldable pub read : ℕ → TensorDesc → ℕ → Option Range
read file_size t dst_bytes =
    if ltb file_size (u64 (t.byte_offset + t.byte_size))
    then none
    else if ltb dst_bytes t.byte_size
    then none
    else some (record { start = t.byte_offset; len = t.byte_size })

-- `qwn_data`: the offset of the pointer that it returns; `none` is NULL.
unfoldable pub data_offset : ℕ → TensorDesc → Option ℕ
data_offset file_size t =
    if ltb file_size t.byte_offset || ltb (file_size - t.byte_offset) t.byte_size
    then none
    else some t.byte_offset

-- The run of whole pages that the three functions hand to `madvise`, where the mapping starts at the
-- address `base`. `addr & ~4095` is `addr - addr % 4096`; addresses do not wrap.
unfoldable pub page_range : ℕ → TensorDesc → Range
page_range base t =
    let addr = base + t.byte_offset in
    let page_addr = addr - addr % 4096 in
    record { start = page_addr; len = addr + t.byte_size - page_addr }

-- `qwn_prefetch`, `qwn_drop_pages`: the advised run; `none` is -1.
unfoldable pub prefetch : ℕ → ℕ → TensorDesc → Option Range
prefetch file_size base t =
    if ltb file_size (u64 (t.byte_offset + t.byte_size)) then none else some (page_range base t)

unfoldable drop_pages : ℕ → ℕ → TensorDesc → Option Range
drop_pages file_size base t =
    if ltb file_size (u64 (t.byte_offset + t.byte_size)) then none else some (page_range base t)

-- `qwn_prefetch_batch`: the advised runs, in order. A NULL tensor is passed over.
unfoldable pub prefetch_batch : ℕ → ℕ → List (Option TensorDesc) → List Range
prefetch_batch file_size base [] = []
prefetch_batch file_size base (none ∷ ts) = prefetch_batch file_size base ts
prefetch_batch file_size base (some t ∷ ts) =
    let rest = prefetch_batch file_size base ts in
    if ltb file_size (u64 (t.byte_offset + t.byte_size)) then rest else page_range base t ∷ rest
