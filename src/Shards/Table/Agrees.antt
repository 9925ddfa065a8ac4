-- ===== src/Shards/Table/Agrees.antt =====
-- A lookup in the table against the scan of the tensors.
use qwanto.Base.{
  free_slot, used-replicate, length-replicate, slot-replicate, distance, slot, ℕ, zero, suc, ◌+◌,
  ◌%◌, ◌≤◌, ◌<◌, ◌≡◌, inl, inr, true, false, Option, none, some, List, length, replicate, ◌==◌,
  arith, sym, ap, ◌∙◌, subst, Bool-cases,
}
use qwanto.Container.Find.Names.{same_bytes-eq}
use qwanto.Shards.{StTensor}
use qwanto.Shards.Table.{
  st_hash, tensor, capacity, Lookup, at, null, named, probe, scan, index_of, st_find,
}
use qwanto.Shards.Table.Probes.{taken_free, insert-Placed, probe-Taken}
use qwanto.Shards.Table.Finds.{home, IsTable, capacity-le, build-IsTable}

plus_zero : (n : ℕ) → n ≡ n + 0
plus_zero n = omega arith

module _ (ts : List StTensor) (name : List ℕ) where
  -- No tensor from `a` up to `b` has the name.
  abbrev Unnamed : ℕ → ℕ → Type 0
  Unnamed a b = (j : ℕ) → a ≤ j → j < b → named ts name j ≡ false

  -- What the scan from `i` over `n` tensors gives: the first of the name.
  data Scanned (n i : ℕ) : Lookup → Type 0 where
    none_named : Unnamed i (i + n) → Scanned n i null
    first_named :
        (j : ℕ) → i ≤ j → j < i + n → named ts name j ≡ true → Unnamed i j → Scanned n i (at j)

  scan-Scanned : (n i : ℕ) → Scanned n i (scan ts name n i)
  unfolding scan
  scan-Scanned zero i = none_named (λ j a b. absurd (omega (arith, a, b)))
  scan-Scanned (suc n) i = elim (Bool-cases (named ts name i)) [
    | inl e ↦
        rw (e, scan)
          (first_named i (omega arith) (omega arith) e (λ j a b. absurd (omega (arith, a, b))))
    | inr e ↦ rw (e, scan) (further e (scan-Scanned n (i + 1)))
  ]
    where
      longer : (b : ℕ) → named ts name i ≡ false → Unnamed (i + 1) b → Unnamed i b
      longer b e h j a lt = elim (Bool-cases (j == i)) [
        | inl f ↦ let same : i ≡ j = ground arith in subst (λ z. named ts name z ≡ false) same e
        | inr f ↦ h j (ground arith) lt
      ]

      further : {l : Lookup} → named ts name i ≡ false → Scanned n (i + 1) l → Scanned (suc n) i l
      further e (none_named h) =
          none_named (longer (i + suc n) e (λ j a b. h j a (omega (arith, b))))
      further e (first_named j a b m h) =
          first_named j (omega (arith, a)) (omega (arith, b)) m (longer j e h)

  -- The lookup in a table of all tensors, with a free slot.
  probe-scan :
      (xs : List (Option ℕ))
      → IsTable ts (length xs) (length ts) xs
      → length ts < length xs
      → {l : Lookup} → Scanned (length ts) 0 l
      → probe ts xs name (length xs) (st_hash name % length xs) ≡ l
  unfolding probe home
  probe-scan xs table room (none_named h) =
      let (s, s_lt, s_free) = free_slot xs (omega (arith, table.count, room)) in
      let (e, e_lt, e_at) = distance (length xs) (st_hash name) s s_lt in
      let p =
        insert-Placed xs (st_hash name) 0 (length xs) 0 e (omega arith) (omega (arith, e_lt))
          (subst (λ z. slot xs z ≡ none) (sym e_at) s_free) in
      ap (λ z. probe ts xs name (length xs) (z % length xs)) (omega arith)
      ∙ probe-Taken xs (st_hash name) ts name null (length xs) 0 p.d p.from
          (omega (arith, p.within, e_lt)) (λ m. rw (p.free, probe))
          (λ e' a b.
            let (i, f, u) = p.taken e' a b in
            (i, f, h i (omega arith) (omega (arith, table.below _ i f))))
  probe-scan xs table room (first_named j a b m h) =
      let s = table.stands j (omega (arith, b)) in
      let same : (tensor ts j).name ≡ name = same_bytes-eq _ _ m in
      ap (λ z. probe ts xs name (length xs) (z % length xs)) (ap st_hash (sym same) ∙ plus_zero _)
      ∙ probe-Taken xs (home ts j) ts name (at j) (length xs) 0 s.d (omega arith)
          (omega (arith, s.near)) (λ k. rw (s.here, probe, m, probe))
          (λ e' a b. let (i, f, lt) = s.passed e' b in (i, f, h i (omega arith) lt))

  probe-finds :
      (n : ℕ) (xs : List (Option ℕ))
      → IsTable ts n (length ts) xs
      → length ts < n
      → st_find ts (some xs) name ≡ st_find ts none name
  unfolding st_find
  probe-finds n xs table room =
      probe-scan xs (subst (λ m. IsTable ts m (length ts) xs) (sym table.size) table)
        (omega (arith, table.size, room)) (scan-Scanned (length ts) 0)

-- The table that st_init builds behind the tensors of its files is finished by its loops, and a lookup in
-- it ends and finds just what a scan of the tensors in their order finds: the first tensor of the name, or
-- none where no tensor has it.
pub st_find-index_of :
    (ts : List StTensor) (name : List ℕ)
    → (xs : List (Option ℕ)) × (index_of ts ≡ some xs)
      × (st_find ts (some xs) name ≡ st_find ts none name)
unfolding index_of
st_find-index_of ts name =
    let n = capacity (length ts) in
    let (xs, e, table) =
      build-IsTable ts n 0 ts (replicate n none) (λ i lt. ap (tensor ts) (omega arith))
        (omega (arith, capacity-le (length ts)))
        (record {
          size = length-replicate n none;
          count = used-replicate ℕ n;
          below = λ s i f. absurd (taken_free f (slot-replicate n s));
          stands = λ j lt. elim lt [ ];
        }) in
    (
      xs,
      e,
      probe-finds ts name n xs (subst (λ k. IsTable ts n k xs) (omega arith) table)
          (capacity-le (length ts)),
    )
