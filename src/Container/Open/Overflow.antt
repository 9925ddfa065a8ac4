-- ===== src/Container/Open/Overflow.antt =====
-- Where the descriptors of the overflow index lie in the file.
use qwanto.Base.{ℕ, ◌+◌, ◌-◌, ◌*◌, ◌^◌, ◌≤◌, ◌<◌, ◌≡◌, false, arith}
use qwanto.Container.Image.{OverflowHeader, desc_bytes, overflow_header_bytes}
use qwanto.Container.Open.{overflow_bad, offset_bad}

-- An overflow header that passes, and an offset that passes: unless the end of the descriptor wraps, the
-- descriptor lies behind the overflow header and before the footer, and the index behind it does too.
overflow_in_file :
    (size tail expected off : ℕ) (oh : OverflowHeader)
    → tail + overflow_header_bytes < 2 ^ 64
    → off + desc_bytes < 2 ^ 64
    → overflow_bad size tail expected oh ≡ false
    → offset_bad oh off ≡ false
    → (tail + overflow_header_bytes ≤ off)
      × (off + desc_bytes ≤ oh.index_offset)
      × (oh.index_offset + oh.count * 16 ≤ size - 8)
      × (oh.count ≡ expected)
unfolding overflow_bad offset_bad
overflow_in_file size tail expected off oh h k o p = ground arith

-- The checks do not exclude the wrap: with one descriptor at an offset just below 2 ^ 64, both the header
-- and the offset pass although the descriptor starts beyond the file.
overflow_wraps :
    (size tail : ℕ) (oh : OverflowHeader)
    → oh.count ≡ 1
    → oh.desc_size ≡ desc_bytes
    → 2 ^ 64 ≤ oh.desc_offset + desc_bytes
    → oh.desc_offset < 2 ^ 64
    → oh.desc_offset + desc_bytes ≤ oh.index_offset + 2 ^ 64
    → oh.index_offset + 24 ≤ size
    → tail + overflow_header_bytes ≤ size
    → size + desc_bytes < 2 ^ 64
    → (overflow_bad size tail 1 oh ≡ false)
      × (offset_bad oh oh.desc_offset ≡ false)
      × (size < oh.desc_offset)
unfolding overflow_bad offset_bad
overflow_wraps size tail oh c d a b e f g h = ground arith
