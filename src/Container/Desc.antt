-- ===== src/Container/Desc.antt =====
-- Tensor descriptors (`QwnTensorDesc`) and their validation, of c/qwanto_native.c.
pub mod Bounds
pub mod Wrap
use qwanto.Base.{
  ℕ, suc, zero, ◌-◌, ◌*◌, ◌/◌, ◌%◌, Bool, true, false, ◌||◌, not, Option, none, some, List, [], ◌∷◌,
  get_or, take, ltb, ◌==◌, if◌then◌else◌, u64, u64_max,
}
use qwanto.Container.Dtype.{expected_payload}

-- `name` is the field's 64 bytes, `shape` its four extents.
pub record TensorDesc : Type 0 where
  pub name : List ℕ
  pub name_len : ℕ
  pub dtype : ℕ
  pub n_dims : ℕ
  pub shape : List ℕ
  pub numel : ℕ
  pub byte_offset : ℕ
  pub byte_size : ℕ
  pub block_q : ℕ

abbrev pub header_size : ℕ
header_size = 0x1000

-- QWN_ALIGN
abbrev pub align : ℕ
align = 0x1000

-- The loop over the extents. `none` is the early `return -1`, before the product can wrap.
unfoldable pub shape_product : ℕ → List ℕ → Option ℕ
shape_product numel [] = some numel
shape_product numel (s ∷ ss) =
    let rest = shape_product (u64 (numel * s)) ss in
    if s == 0 || ltb (u64_max / s) numel then none else rest

-- The conditions that come before the loop. `a & 63` is `a % 64`, and `a & (align - 1)` is
-- `a % align`.
unfoldable pub fields_bad : TensorDesc → ℕ → Bool
fields_bad t file_size =
    t.name_len == 0
    || ltb 63 t.name_len
    || not (get_or t.name t.name_len 0 == 0)
    || t.n_dims == 0
    || ltb 4 t.n_dims
    || t.numel == 0
    || t.byte_size == 0
    || not (t.byte_size % 64 == 0)
    || ltb t.byte_offset header_size
    || not (t.byte_offset % align == 0)
    || ltb file_size t.byte_offset
    || ltb (file_size - t.byte_offset) t.byte_size

-- What follows the loop: the product is the recorded count, and the payload is long enough.
unfoldable pub counts_ok : TensorDesc → Option ℕ → Bool
counts_ok t none = false
counts_ok t (some numel) =
    let expected = expected_payload t.dtype t.numel in
    if not (numel == t.numel)
    then false
    else if expected == 0 || ltb t.byte_size expected
    then false
    else true

-- `qwn_validate_desc`, true for 0 and false for -1.
unfoldable pub validate_desc : TensorDesc → ℕ → Bool
unfolding shape_product fields_bad counts_ok
validate_desc t file_size =
    if fields_bad t file_size then false else counts_ok t (shape_product 1 (take t.n_dims t.shape))
