-- ===== src/Container/Dtype.antt =====
-- The tensor dtypes of c/qwanto_native.h, and the payload sizes of c/qwanto_native.c.
pub mod Payload
use qwanto.Base.{ℕ, ◌+◌, ◌*◌, ◌/◌, Option, none, some, List, [], ◌∷◌, get_elem?, u64, String}

-- QWN_DT_*, in the order of their codes.
pub data Dtype : Type 0 where
  f32 f16 q4_0 q8_0 bf16 bytes vsq vsq_ultra hyper_vsq hyper_vsq2 : Dtype
  q2_k q3_k q8_k iq2_xxs iq2_xs iq3_xxs iq3_s iq2_s iq4_nl iq4_xs : Dtype

abbrev dtypes : List Dtype
dtypes =
    f32 ∷ f16 ∷ q4_0 ∷ q8_0 ∷ bf16 ∷ bytes ∷ vsq ∷ vsq_ultra ∷ hyper_vsq ∷ hyper_vsq2 ∷ q2_k ∷ q3_k
    ∷ q8_k ∷ iq2_xxs ∷ iq2_xs ∷ iq3_xxs ∷ iq3_s ∷ iq2_s ∷ iq4_nl ∷ iq4_xs ∷ []

-- The case that a switch over the code takes; `none` is its default.
abbrev pub dtype_of : ℕ → Option Dtype
dtype_of code = get_elem? dtypes code

-- `qwn_dtype_name`
abbrev name_of : Dtype → String
name_of f32 = "F32"
name_of f16 = "F16"
name_of q4_0 = "Q4_0"
name_of q8_0 = "Q8_0"
name_of bf16 = "BF16"
name_of bytes = "BYTES"
name_of vsq = "VSQ"
name_of vsq_ultra = "VSQ_ULTRA"
name_of hyper_vsq = "HYPER_VSQ"
name_of hyper_vsq2 = "HYPER_VSQ2"
name_of q2_k = "Q2_K"
name_of q3_k = "Q3_K"
name_of q8_k = "Q8_K"
name_of iq2_xxs = "IQ2_XXS"
name_of iq2_xs = "IQ2_XS"
name_of iq3_xxs = "IQ3_XXS"
name_of iq3_s = "IQ3_S"
name_of iq2_s = "IQ2_S"
name_of iq4_nl = "IQ4_NL"
name_of iq4_xs = "IQ4_XS"

abbrev dtype_name : ℕ → String
dtype_name code = elim (dtype_of code) [ none ↦ "?" | some dt ↦ name_of dt ]

-- `((n + (block - 1)) / block) * size` in uint64_t.
abbrev pub blocks : ℕ → ℕ → ℕ → ℕ
blocks n round size = u64 (u64 (n + round) / (round + 1) * size)

-- The switch of `qwn_block_bytes`.
unfoldable pub bytes_of : Dtype → ℕ → ℕ
bytes_of f32 n = u64 (n * 4)
bytes_of f16 n = u64 (n * 2)
bytes_of bf16 n = u64 (n * 2)
bytes_of bytes n = n
bytes_of q4_0 n = blocks n 31 (2 + 16)
bytes_of q8_0 n = blocks n 31 (2 + 32)
bytes_of vsq n = blocks n 63 36
bytes_of vsq_ultra n = blocks n 127 70
bytes_of hyper_vsq n = blocks n 255 138
bytes_of hyper_vsq2 n = blocks n 255 74
bytes_of q2_k n = blocks n 255 84
bytes_of q3_k n = blocks n 255 110
bytes_of q8_k n = blocks n 255 292
bytes_of iq2_xxs n = blocks n 255 66
bytes_of iq2_xs n = blocks n 255 74
bytes_of iq3_xxs n = blocks n 255 98
bytes_of iq3_s n = blocks n 255 110
bytes_of iq2_s n = blocks n 255 82
bytes_of iq4_nl n = blocks n 31 18
bytes_of iq4_xs n = blocks n 255 136

unfoldable pub block_bytes : ℕ → ℕ → ℕ
block_bytes code n = elim (dtype_of code) [ none ↦ 0 | some dt ↦ bytes_of dt n ]

-- The switch of `qwn_expected_payload`.
unfoldable pub payload_of : Dtype → ℕ → ℕ
payload_of f32 n = u64 (n * 4)
payload_of f16 n = u64 (n * 2)
payload_of bf16 n = u64 (n * 2)
payload_of bytes n = n
payload_of q4_0 n = blocks n 31 18
payload_of q8_0 n = blocks n 31 34
payload_of vsq n = blocks n 63 36
payload_of vsq_ultra n = blocks n 127 70
payload_of hyper_vsq n = blocks n 255 138
payload_of hyper_vsq2 n = blocks n 255 74
payload_of q2_k n = blocks n 255 84
payload_of q3_k n = blocks n 255 110
payload_of q8_k n = blocks n 255 292
payload_of iq2_xxs n = blocks n 255 66
payload_of iq2_xs n = blocks n 255 74
payload_of iq3_xxs n = blocks n 255 98
payload_of iq3_s n = blocks n 255 110
payload_of iq2_s n = blocks n 255 82
payload_of iq4_nl n = blocks n 31 18
payload_of iq4_xs n = blocks n 255 136

unfoldable pub expected_payload : ℕ → ℕ → ℕ
unfolding payload_of
expected_payload code n = elim (dtype_of code) [ none ↦ 0 | some dt ↦ payload_of dt n ]
