-- ===== src/Container/Dtype/Payload.antt =====
-- What the payload sizes of c/qwanto_native.c amount to, against a table of block geometries.
use qwanto.Base.{ℕ, ◌+◌, ◌*◌, ◌<◌, ◌≤◌, ◌^◌, ◌≡◌, refl, inl, inr, arith, Option-cases}
use qwanto.Container.Dtype.{
  Dtype, f32, f16, q4_0, q8_0, bf16, bytes, vsq, vsq_ultra, hyper_vsq, hyper_vsq2, q2_k, q3_k, q8_k,
  iq2_xxs, iq2_xs, iq3_xxs, iq3_s, iq2_s, iq4_nl, iq4_xs, dtype_of, bytes_of, payload_of,
  block_bytes, expected_payload,
}

-- The elements of a block, and the bytes that it takes, as the block structs of the header say.
abbrev pub geometry : Dtype → ℕ × ℕ
geometry f32 = (1, 4)
geometry f16 = (1, 2)
geometry bf16 = (1, 2)
geometry bytes = (1, 1)
geometry q4_0 = (32, 18)
geometry q8_0 = (32, 34)
geometry vsq = (64, 36)
geometry vsq_ultra = (128, 70)
geometry hyper_vsq = (256, 138)
geometry hyper_vsq2 = (256, 74)
geometry q2_k = (256, 84)
geometry q3_k = (256, 110)
geometry q8_k = (256, 292)
geometry iq2_xxs = (256, 66)
geometry iq2_xs = (256, 74)
geometry iq3_xxs = (256, 98)
geometry iq3_s = (256, 110)
geometry iq2_s = (256, 82)
geometry iq4_nl = (32, 18)
geometry iq4_xs = (256, 136)

-- Below 2 ^ 61 elements no step of the computation wraps, and the size covers every element: with
-- `b` elements and `s` bytes to a block, size * b is at least n * s, by less than one block's worth.
pub payload_of-covers :
    (dt : Dtype) (n : ℕ)
    → n < 2 ^ 61
    → (n * (geometry dt).1 ≤ payload_of dt n * (geometry dt).0)
      × (payload_of dt n * (geometry dt).0
          < n * (geometry dt).1 + (geometry dt).0 * (geometry dt).1)
unfolding payload_of
payload_of-covers f32 n h = omega arith
payload_of-covers _ n h = omega arith

bytes_of-payload_of : (dt : Dtype) (n : ℕ) → bytes_of dt n ≡ payload_of dt n
unfolding bytes_of payload_of
bytes_of-payload_of f32 n = refl
bytes_of-payload_of _ n = refl

-- The public size function and the loader's check agree, for every code and count.
block_bytes-expected_payload : (code n : ℕ) → block_bytes code n ≡ expected_payload code n
unfolding block_bytes expected_payload
block_bytes-expected_payload code n = elim (Option-cases (dtype_of code)) [
  | inl e ↦ rw e
  | inr (dt, e) ↦ rw e (bytes_of-payload_of dt n)
]
