-- ===== src/Container/Access/Laws.antt =====
-- The bytes that the access functions touch, for descriptors that the loader admits and for others.
use qwanto.Base.{
  ℕ, ◌+◌, ◌%◌, ◌^◌, ◌≤◌, ◌<◌, ◌≡◌, Option, none, some, List, ◌∷◌, arith, ltb, if◌then◌else◌,
}
use qwanto.Container.Desc.{TensorDesc}
use qwanto.Container.Open.Indexes.{Admitted}
use qwanto.Container.Access.{read, data_offset, page_range, prefetch, prefetch_batch}

-- For an admitted descriptor `qwn_read` copies exactly its payload when the buffer is large enough and
-- fails otherwise, and `qwn_data` points at the payload; the payload lies inside the file.
pub read-Admitted :
    (size tail dst : ℕ) (t : TensorDesc)
    → size < 2 ^ 64
    → Admitted size tail t
    → (read size t dst ≡ (
        if ltb dst t.byte_size
        then none
        else some (record { start = t.byte_offset; len = t.byte_size })))
      × (data_offset size t ≡ some t.byte_offset)
      × (t.byte_offset + t.byte_size ≤ size)
unfolding read data_offset
read-Admitted size tail dst t h a = ground (arith, a.sound.in_file)

-- `qwn_data` is safe for every descriptor: a pointer that it returns has the whole payload in the file.
pub data_offset-in_file :
    (size : ℕ) (t : TensorDesc) {offset : ℕ}
    → data_offset size t ≡ some offset
    → (offset ≡ t.byte_offset) × (offset + t.byte_size ≤ size)
unfolding data_offset
data_offset-in_file size t e = ground arith

-- `qwn_read` is not: a descriptor outside the file passes its test where the sum wraps.
read_wraps :
    (size dst : ℕ) (t : TensorDesc)
    → 2 ^ 64 ≤ t.byte_offset + t.byte_size
    → t.byte_offset + t.byte_size ≤ size + 2 ^ 64
    → t.byte_offset < 2 ^ 64
    → t.byte_size < 2 ^ 64
    → t.byte_size ≤ dst
    → size < t.byte_offset
    → (read size t dst ≡ some (record { start = t.byte_offset; len = t.byte_size }))
      × (data_offset size t ≡ none)
unfolding read data_offset
read_wraps size dst t a b c d e f = ground arith

-- The advised run starts at a page, begins no later than the payload and within a page of it, and ends
-- where the payload ends.
page_range_lem :
    (base : ℕ) (t : TensorDesc)
    → let r = page_range base t in
      (r.start % 4096 ≡ 0)
      × (r.start ≤ base + t.byte_offset)
      × (base + t.byte_offset < r.start + 4096)
      × (r.start + r.len ≡ base + t.byte_offset + t.byte_size)
unfolding page_range
page_range_lem base t = omega arith

-- Advising pages one tensor at a time or in a batch advises the same runs.
prefetch_batch-prefetch :
    (size base : ℕ) (t : TensorDesc) (ts : List (Option TensorDesc))
    → prefetch_batch size base (some t ∷ ts) ≡ (elim (prefetch size base t) [
      | none ↦ prefetch_batch size base ts
      | some r ↦ r ∷ prefetch_batch size base ts
    ])
unfolding prefetch_batch prefetch
prefetch_batch-prefetch size base t ts = ground arith
