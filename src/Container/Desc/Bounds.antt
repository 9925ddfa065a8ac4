-- ===== src/Container/Desc/Bounds.antt =====
-- What a descriptor that `qwn_validate_desc` accepts is sure of.
use qwanto.Base.{
  mul_le_of_le_div, ℕ, ◌+◌, ◌*◌, ◌/◌, ◌%◌, ◌^◌, ◌≤◌, ◌<◌, ◌≡◌, sym, ◌∙◌, inl, inr, true, false,
  Option, none, some, List, [], ◌∷◌, arith, take, get_or, u64, u64_max, ltb, ◌==◌, ◌||◌, Bool-cases,
  none_ne_some, true_ne_false,
}
use native.Mathlib.Nat.{mul_assoc, one-mul}
use qwanto.Container.Dtype.{expected_payload}
use qwanto.Container.Desc.{
  TensorDesc, header_size, align, shape_product, fields_bad, counts_ok, validate_desc,
}

-- The true product of the extents.
abbrev pub product : List ℕ → ℕ
product [] = 1
product (s ∷ ss) = s * product ss

extent_fits :
    (s numel : ℕ)
    → (s == 0 || ltb (u64_max / s) numel) ≡ false
    → (numel * s < 2 ^ 64) × (u64 (numel * s) ≡ numel * s)
extent_fits s numel h = ground (arith, mul_le_of_le_div numel s u64_max)

-- The overflow test is exact: the loop's product never wraps.
shape_product-product :
    (ss : List ℕ) (numel : ℕ) {r : ℕ}
    → numel < 2 ^ 64
    → shape_product numel ss ≡ some r
    → (r ≡ numel * product ss) × (r < 2 ^ 64)
unfolding shape_product
shape_product-product [] numel h e = ground arith
shape_product-product (s ∷ ss) numel h e = elim (Bool-cases (s == 0 || ltb (u64_max / s) numel)) [
  | inl bad ↦ absurd (none_ne_some (rw bad at e))
  | inr good ↦
      let fits = extent_fits s numel good in
      let rest = shape_product-product ss (numel * s) fits.0 (rw (good, fits.1) at e) in
      (rw rest.0 (mul_assoc numel s (product ss)), rest.1)
]

-- What an accepted descriptor satisfies in a file of `size` bytes.
pub record IsSound (t : TensorDesc) (size : ℕ) : Type 0 where
  pub named : (0 < t.name_len) × (t.name_len < 64)
  pub terminated : get_or t.name t.name_len 0 ≡ 0
  pub dims : (0 < t.n_dims) × (t.n_dims ≤ 4)
  pub after_header : header_size ≤ t.byte_offset
  pub aligned : t.byte_offset % align ≡ 0
  pub padded : t.byte_size % 64 ≡ 0
  pub in_file : t.byte_offset + t.byte_size ≤ size
  pub counted : t.numel ≡ product (take t.n_dims t.shape)
  pub nonempty : 0 < t.numel
  pub payload : expected_payload t.dtype t.numel ≤ t.byte_size
  pub sized : 0 < expected_payload t.dtype t.numel

abbrev FieldsSound : TensorDesc → ℕ → Type 0
FieldsSound t size =
    ((0 < t.name_len) × (t.name_len < 64))
    × (get_or t.name t.name_len 0 ≡ 0)
    × ((0 < t.n_dims) × (t.n_dims ≤ 4))
    × (header_size ≤ t.byte_offset)
    × (t.byte_offset % align ≡ 0)
    × (t.byte_size % 64 ≡ 0)
    × (t.byte_offset + t.byte_size ≤ size)
    × (0 < t.numel)

fields_sound : (t : TensorDesc) (size : ℕ) → fields_bad t size ≡ false → FieldsSound t size
unfolding fields_bad
fields_sound t size h = ground arith

counts_sound :
    (t : TensorDesc) (o : Option ℕ)
    → counts_ok t o ≡ true
    → (o ≡ some t.numel)
      × (expected_payload t.dtype t.numel ≤ t.byte_size)
      × (0 < expected_payload t.dtype t.numel)
unfolding counts_ok
counts_sound t none h = cc
counts_sound t (some n) h = ground arith

-- A descriptor that the loader accepts is named, aligned and inside the file; its count is the true
-- product of its extents, with no wrap; and its bytes reach the payload size that the loader expects.
pub validate_desc-IsSound :
    (t : TensorDesc) (size : ℕ) → validate_desc t size ≡ true → IsSound t size
unfolding validate_desc
validate_desc-IsSound t size h = elim (Bool-cases (fields_bad t size)) [
  | inl bad ↦ absurd (true_ne_false (sym h ∙ rw bad))
  | inr good ↦
      let f = fields_sound t size good in
      let c = counts_sound t (shape_product 1 (take t.n_dims t.shape)) (rw good at h) in
      let p = shape_product-product (take t.n_dims t.shape) 1 (omega arith) c.0 in
      record {
        named = f.0;
        terminated = f.1;
        dims = f.2;
        after_header = f.3;
        aligned = f.4;
        padded = f.5;
        in_file = f.6;
        counted = p.0 ∙ one-mul (product (take t.n_dims t.shape));
        nonempty = f.7;
        payload = c.1;
        sized = c.2;
      }
]
