-- ===== src/Container/Open/Indexes.antt =====
-- What the loops of `qwn_open` over the two indexes have checked.
use qwanto.Base.{
  ℕ, zero, suc, ◌+◌, ◌<◌, true, false, some, List, [], ◌∷◌, ◌≡◌, refl, ◌⊎◌, inl, inr, arith,
  Option-cases, All, length, map,
}
use qwanto.Container.Desc.{TensorDesc}
use qwanto.Container.Desc.Bounds.{IsSound, validate_desc-IsSound}
use qwanto.Container.Image.{Image, u64_at, desc_at, OverflowHeader}
use qwanto.Container.Model.{Entry}
use qwanto.Container.Open.{
  Error, scan_overflow, Scan, done, bad, scan_inline, admits, offset_bad, hash_name,
}

-- A descriptor that the loader admits: it is sound, and its payload starts before the tail.
pub record Admitted (size tail : ℕ) (t : TensorDesc) : Type 0 where
  pub sound : IsSound t size
  pub before_tail : t.byte_offset < tail

admits-Admitted :
    (size tail : ℕ) (t : TensorDesc) → admits size tail t ≡ true → Admitted size tail t
unfolding admits
admits-Admitted size tail t h = ground (arith, validate_desc-IsSound t size)

pub scan_inline-Admitted :
    (size tail : ℕ) (ts : List TensorDesc) {hs : List ℕ}
    → scan_inline size tail ts ≡ some hs
    → All (Admitted size tail) ts
unfolding scan_inline
scan_inline-Admitted size tail [] h = tt
scan_inline-Admitted size tail (t ∷ ts) h = elim (Option-cases (scan_inline size tail ts)) [
  | inl e ↦ absurd (ground arith)
  | inr (hs, e) ↦ (admits-Admitted size tail t (ground arith), scan_inline-Admitted size tail ts e)
]

-- One entry of the overflow index, as the loop leaves it.
pub record Scanned (file : Image) (size tail : ℕ) (oh : OverflowHeader) (e : Entry) : Type 0 where
  pub admitted : Admitted size tail e.desc
  pub copied : e.desc ≡ desc_at file e.offset
  pub placed : offset_bad oh e.offset ≡ false

pub Scan-cases : (s : Scan) → ((es : List Entry) × (s ≡ done es)) ⊎ ((e : Error) × (s ≡ bad e))
Scan-cases (done es) = inl (es, refl)
Scan-cases (bad e) = inr (e, refl)

pub scan_overflow-Scanned :
    (file : Image) (size tail : ℕ) (oh : OverflowHeader) (n p : ℕ) (es : List Entry)
    → scan_overflow file size tail oh n p ≡ done es
    → All (Scanned file size tail oh) es × (length es ≡ n)
unfolding scan_overflow
scan_overflow-Scanned file size tail oh zero p [] h = (tt, refl)
scan_overflow-Scanned file size tail oh zero p (e ∷ es) h = cc
scan_overflow-Scanned file size tail oh (suc n) p [] h =
    elim (Scan-cases (scan_overflow file size tail oh n (p + 16))) [
      | inl (fs, q) ↦ absurd (ground arith)
      | inr (err, q) ↦ absurd (ground arith)
    ]
scan_overflow-Scanned file size tail oh (suc n) p (e ∷ es) h =
    elim (Scan-cases (scan_overflow file size tail oh n (p + 16))) [
      | inl (fs, q) ↦ ground (
        arith,
        scan_overflow-Scanned file size tail oh n (p + 16) fs,
        admits-Admitted size tail (desc_at file (u64_at file (p + 8))),
      )
      | inr (err, q) ↦ absurd (ground arith)
    ]

pub scan_inline-hashes :
    (size tail : ℕ) (ts : List TensorDesc) {hs : List ℕ}
    → scan_inline size tail ts ≡ some hs
    → hs ≡ map (λ t. hash_name t.name) ts
unfolding scan_inline
scan_inline-hashes size tail [] h = ground arith
scan_inline-hashes size tail (t ∷ ts) h = elim (Option-cases (scan_inline size tail ts)) [
  | inl e ↦ absurd (ground arith)
  | inr (hs, e) ↦ ground (arith, scan_inline-hashes size tail ts e)
]
