-- ===== src/Container/Image.antt =====
-- The bytes of a mapped file, and the packed little-endian structures that the loader reads there:
-- the structs of c/qwanto_native.h, by their offsets.
use qwanto.Base.{ℕ, zero, suc, ◌+◌, ◌*◌, List, [], ◌∷◌}
use qwanto.Container.Desc.{TensorDesc}

-- The byte at each offset.
abbrev pub Image : Type 0
Image = ℕ → ℕ

unfoldable pub bytes_at : Image → ℕ → ℕ → List ℕ
bytes_at file zero offset = []
bytes_at file (suc n) offset = file offset ∷ bytes_at file n (offset + 1)

unfoldable pub le_at : Image → ℕ → ℕ → ℕ
le_at file zero offset = 0
le_at file (suc n) offset = file offset + 256 * le_at file n (offset + 1)

unfoldable pub u32_at : Image → ℕ → ℕ
unfolding le_at
u32_at file offset = le_at file 4 offset

unfoldable pub u64_at : Image → ℕ → ℕ
unfolding le_at
u64_at file offset = le_at file 8 offset

unfoldable pub u64s_at : Image → ℕ → ℕ → List ℕ
u64s_at file zero offset = []
u64s_at file (suc n) offset = u64_at file offset ∷ u64s_at file n (offset + 8)

-- sizeof(QwnTensorDesc)
abbrev pub desc_bytes : ℕ
desc_bytes = 136

unfoldable pub desc_at : Image → ℕ → TensorDesc
unfolding bytes_at u32_at u64_at u64s_at
desc_at file offset = record {
  name = bytes_at file 64 offset;
  name_len = u32_at file (offset + 64);
  dtype = u32_at file (offset + 68);
  n_dims = u32_at file (offset + 72);
  shape = u64s_at file 4 (offset + 76);
  numel = u64_at file (offset + 108);
  byte_offset = u64_at file (offset + 116);
  byte_size = u64_at file (offset + 124);
  block_q = u32_at file (offset + 132);
}

unfoldable pub descs_at : Image → ℕ → ℕ → List TensorDesc
descs_at file zero offset = []
descs_at file (suc n) offset = desc_at file offset ∷ descs_at file n (offset + desc_bytes)

-- QWN_INLINE_MAX
abbrev pub inline_max : ℕ
inline_max = 29

-- `QwnHeader`
pub record Header : Type 0 where
  pub magic : List ℕ
  pub version : ℕ
  pub flags : ℕ
  pub arch_code : ℕ
  pub n_tensors : ℕ
  pub inline_count : ℕ
  pub n_params : ℕ
  pub arch_dims : List ℕ
  pub inline_index : List TensorDesc
  pub q_dim : ℕ
  pub k_dim : ℕ
  pub v_dim : ℕ

unfoldable pub header_at : Image → ℕ → Header
unfolding bytes_at u32_at u64_at u64s_at descs_at
header_at file offset = record {
  magic = bytes_at file 16 offset;
  version = u32_at file (offset + 16);
  flags = u32_at file (offset + 20);
  arch_code = u32_at file (offset + 24);
  n_tensors = u32_at file (offset + 28);
  inline_count = u32_at file (offset + 32);
  n_params = u64_at file (offset + 40);
  arch_dims = u64s_at file 8 (offset + 48);
  inline_index = descs_at file inline_max (offset + 112);
  q_dim = u64_at file (offset + 4056);
  k_dim = u64_at file (offset + 4064);
  v_dim = u64_at file (offset + 4072);
}

-- `QwnOverflowHeader`
pub record OverflowHeader : Type 0 where
  pub count : ℕ
  pub desc_size : ℕ
  pub desc_offset : ℕ
  pub index_offset : ℕ

-- sizeof(QwnOverflowHeader)
abbrev pub overflow_header_bytes : ℕ
overflow_header_bytes = 32

unfoldable pub overflow_header_at : Image → ℕ → OverflowHeader
unfolding u32_at u64_at
overflow_header_at file offset = record {
  count = u32_at file offset;
  desc_size = u32_at file (offset + 4);
  desc_offset = u64_at file (offset + 8);
  index_offset = u64_at file (offset + 16);
}
