-- ===== src/Container/Open/Sound.antt =====
-- What a successful `qwn_open` has checked of the file.
use qwanto.Base.{
  ℕ, ◌+◌, ◌-◌, ◌≤◌, false, ◌≡◌, refl, subst, inl, inr, arith, Bool-cases, leb, ltb, ◌==◌, not, ◌&&◌,
}
use qwanto.Container.Desc.{header_size}
use qwanto.Container.Image.{overflow_header_at, overflow_header_bytes, OverflowHeader}
use qwanto.Container.Model.{Held, Loader, release}
use qwanto.Container.Open.{
  Outcome, ok, ◌>>=◌, System, read_overflow, arrays, alloc_overflow, open_model, inline_descs,
  overflow_bad, io, trunc, no_tail,
}
use qwanto.Container.Open.Stages.{
  OnSuccess, >>=-OnSuccess, IsEmpty, IsSized, IsTailed, IsHeaded, IsOpen, open_file-IsEmpty,
  stat_file-IsEmpty, map_file-IsEmpty, read_tail-IsTailed, read_header-IsHeaded, IsIndexed,
  IsChecked, read_inline-IsIndexed, fill_overflow-IsOpen, OnSuccess-if, overflow_bad-count,
  inline_only,
}

alloc_overflow-IsOpen :
    (sys : System) (oh : OverflowHeader) (s : Loader)
    → IsChecked s
    → s.model.hdr.n_tensors ≤ s.model.hdr.inline_count + oh.count
    → OnSuccess (λ t. IsOpen t.model) (alloc_overflow sys oh s)
unfolding alloc_overflow inline_descs
alloc_overflow-IsOpen sys oh s h n =
    OnSuccess-if (λ t. IsOpen t.model) (not (oh.count == 0) && ltb (arrays sys) 3) io _ _
      λ _.
        fill_overflow-IsOpen sys oh
          (record {
            model = record m { overflow_count = oh.count; buffers = arrays sys };
            held = record held { heap = held.heap + arrays sys };
          })
          h refl n
  where
    open s use {model as m, held}

with_overflow :
    (sys : System) (s : Loader)
    → IsIndexed s
    → leb s.model.hdr.n_tensors s.model.hdr.inline_count ≡ false
    → OnSuccess (λ t. IsOpen t.model) (read_overflow sys s)
unfolding read_overflow
with_overflow sys s h many =
    rw (many, read_overflow)
      (OnSuccess-if P (ltb m.file_size (header_size + 8)) no_tail (release s) _ λ _.
        OnSuccess-if P (ltb room overflow_header_bytes) no_tail (release s) _ λ _.
          OnSuccess-if P (overflow_bad m.file_size m.tail_offset expected oh) trunc (release s) _
            λ good.
              alloc_overflow-IsOpen sys oh s (h.0.0.1, h.0.0.2, h.0.1, h.1, h.2)
                (ground (arith, overflow_bad-count m.file_size m.tail_offset expected oh good)))
  where
    open s use {model as m}

    P : Loader → Type 0
    P t = IsOpen t.model

    room : ℕ
    room = m.file_size - 8 - m.tail_offset

    expected : ℕ
    expected = m.hdr.n_tensors - m.hdr.inline_count

    oh : OverflowHeader
    oh = overflow_header_at sys.file m.tail_offset

read_overflow-IsOpen :
    (sys : System) (s : Loader)
    → IsIndexed s
    → OnSuccess (λ t. IsOpen t.model) (read_overflow sys s)
unfolding read_overflow
read_overflow-IsOpen sys s h =
    elim (Bool-cases (leb s.model.hdr.n_tensors s.model.hdr.inline_count)) [
      | inl few ↦ rw (few, read_overflow) (inline_only s h few)
      | inr many ↦ with_overflow sys s h many
    ]

open_model-OnSuccess :
    (sys : System) (held : Held) → OnSuccess (λ s. IsOpen s.model) (open_model sys held)
unfolding open_model
open_model-OnSuccess sys held = bind IsEmpty _ _ (open_file-IsEmpty sys held) λ opened o.
    bind IsSized _ _ (stat_file-IsEmpty sys opened o) λ sized o'.
      bind IsSized _ _ (map_file-IsEmpty sys sized o') λ mapped m.
        bind IsTailed _ _ (read_tail-IsTailed sys mapped m) λ tailed t.
          bind IsHeaded _ _ (read_header-IsHeaded sys tailed t) λ headed h.
            bind IsIndexed _ _ (read_inline-IsIndexed headed h)
              λ indexed i. read_overflow-IsOpen sys indexed i
  where
    bind :
        (P : Loader → Type 0) (o : Outcome) (f : Loader → Outcome)
        → OnSuccess P o
        → ((s : Loader) → P s → OnSuccess (λ t. IsOpen t.model) (f s))
        → OnSuccess (λ t. IsOpen t.model) (o >>= f)
    bind P o f h k = >>=-OnSuccess P (λ t. IsOpen t.model) o f h k

-- A model that `qwn_open` opens has a tail inside the file, the right magic and version, and an inline
-- index of at most 29 entries; every inline and overflow descriptor is sound and starts before the
-- tail; and the two indexes together hold every tensor that the header counts.
pub open_model-IsOpen :
    (sys : System) (held : Held) {s : Loader} → open_model sys held ≡ ok s → IsOpen s.model
open_model-IsOpen sys held e =
    subst (OnSuccess (λ t. IsOpen t.model)) e (open_model-OnSuccess sys held)
