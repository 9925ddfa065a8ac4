-- ===== src/Container/Desc/Wrap.antt =====
-- Where the payload size wraps: what `qwn_validate_desc` accepts although the payload is too short, and
-- that there is nothing else that it misses.
use qwanto.Base.{
  le_div_of_mul_le, ℕ, zero, suc, ◌↔◌, ap, ◌*◌, ◌/◌, ◌^◌, ◌≤◌, ◌<◌, ◌≡◌, sym, ◌∙◌, true, false,
  some, List, [], ◌∷◌, arith, take, u64, u64_max, ltb, ◌==◌, ◌||◌,
}
use native.Mathlib.Nat.{mul_assoc, one-mul}
use qwanto.Container.Dtype.{Dtype, f32, dtype_of, expected_payload}
use qwanto.Container.Dtype.Payload.{geometry, payload_of-covers}
use qwanto.Container.Desc.{TensorDesc, shape_product, fields_bad, counts_ok, validate_desc}
use qwanto.Container.Desc.Bounds.{product, IsSound, validate_desc-IsSound}

-- An accepted tensor of fewer than 2 ^ 61 elements has every element in its bytes, in whole blocks of
-- its dtype.
pub validate_desc-covers :
    (t : TensorDesc) (size : ℕ) (dt : Dtype)
    → dtype_of t.dtype ≡ some dt
    → t.numel < 2 ^ 61
    → validate_desc t size ≡ true
    → t.numel * (geometry dt).1 ≤ t.byte_size * (geometry dt).0
unfolding expected_payload
validate_desc-covers t size dt e small h =
    grind (arith, (validate_desc-IsSound t size h).payload, payload_of-covers dt t.numel small)

pos_left : (a b : ℕ) → 0 < a * b → 0 < a
pos_left zero b h = grind arith
pos_left (suc a) b h = omega arith

pos_right : (a b : ℕ) → 0 < a * b → 0 < b
pos_right a zero h = grind arith
pos_right a (suc b) h = omega arith

le_mul : (a b : ℕ) → 0 < b → a ≤ a * b
le_mul a zero h = elim h [ ]
le_mul a (suc b) h = grind arith

-- No extent is refused where the product of all is positive and below 2 ^ 64.
extent_passes :
    (s numel rest : ℕ)
    → 0 < numel * s * rest
    → numel * s * rest < 2 ^ 64
    → ((s == 0 || ltb (u64_max / s) numel) ≡ false) × (u64 (numel * s) ≡ numel * s)
extent_passes s numel rest pos fits =
    let left = pos_left (numel * s) rest pos in
    let s_pos = pos_right numel s left in
    let below : numel * s ≤ u64_max =
      omega (arith, le_mul (numel * s) rest (pos_right (numel * s) rest pos)) in
    (ground (arith, le_div_of_mul_le numel s u64_max s_pos below), omega arith)

shape_product_complete :
    (ss : List ℕ) (numel : ℕ)
    → 0 < numel * product ss
    → numel * product ss < 2 ^ 64
    → shape_product numel ss ≡ some (numel * product ss)
unfolding shape_product
shape_product_complete [] numel pos fits = ground arith
shape_product_complete (s ∷ ss) numel pos fits =
    let assoc = mul_assoc numel s (product ss) in
    let p : 0 < numel * s * product ss = rw assoc pos in
    let f : numel * s * product ss < 2 ^ 64 = rw assoc fits in
    let e = extent_passes s numel (product ss) p f in
    rw (e.0, e.1) (shape_product_complete ss (numel * s) p f ∙ ap some assoc)

fields_complete :
    (t : TensorDesc) (size : ℕ) → IsSound t size → 0 < t.byte_size → fields_bad t size ≡ false
unfolding fields_bad
fields_complete t size v pos = ground arith

-- The loader accepts exactly the sound descriptors, for 64-bit counts.
pub validate_desc_iff :
    (t : TensorDesc) (size : ℕ) → t.numel < 2 ^ 64 → (validate_desc t size ≡ true) ↔ IsSound t size
unfolding validate_desc counts_ok
validate_desc_iff t size h = (validate_desc-IsSound t size, accepts)
  where
    accepts : IsSound t size → validate_desc t size ≡ true
    accepts v =
        let total = one-mul (product (take t.n_dims t.shape)) in
        let whole : 1 * product (take t.n_dims t.shape) ≡ t.numel = total ∙ sym v.counted in
        rw
          (
            fields_complete t size v (omega (arith, v.sized, v.payload)),
            shape_product_complete (take t.n_dims t.shape) 1 (omega (arith, v.nonempty))
                (omega arith),
            whole,
          )
          (ground (arith, v.payload, v.sized))

-- So it also accepts an F32 tensor whose payload size wraps: from 2 ^ 62 elements on the bytes of the
-- file do not reach 4 per element, for every sound descriptor.
pub validate_desc-wraps :
    (t : TensorDesc) (size : ℕ)
    → dtype_of t.dtype ≡ some f32
    → 2 ^ 62 ≤ t.numel
    → t.numel < 2 ^ 64
    → size < 2 ^ 64
    → IsSound t size
    → (validate_desc t size ≡ true) × (t.byte_size < t.numel * 4)
validate_desc-wraps t size e big fits room v =
    ((validate_desc_iff t size fits).1 v, omega (arith, v.in_file))
