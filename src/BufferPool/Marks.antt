-- ===== src/BufferPool/Marks.antt =====
-- The marks `in_use` of the entries under the operations of the pool.
use qwanto.Base.{
  ℕ, zero, suc, ℤ, pos, List, [], ◌∷◌, ◌<◌, ◌≡◌, Bool, true, false, Option, ◌==◌, ltb, length,
  get_or, set, replicate, if◌then◌else◌, arith, refl, ap, ◌∙◌, inl, inr, Bool-cases, get_or-set,
}
use qwanto.BufferPool.{
  EBufferPool, PoolEntry, entry, mark, fill_entry, allocate, new_entry, buffer_pool_init,
  buffer_pool_release,
}

-- An index behind the entries reads as free.
free_behind :
    (xs : List PoolEntry) (i : ℕ) → (get_or xs i (new_entry 0 0)).in_use ≡ true → i < length xs
free_behind [] i e = cc
free_behind (x ∷ xs) zero e = omega arith
free_behind (x ∷ xs) (suc i) e = omega (arith, free_behind xs i e)

-- A write of an entry changes the mark at its index only.
set_in_use :
    (xs : List PoolEntry) (i j : ℕ) (w : PoolEntry)
    → i < length xs
    → (get_or (set xs i w) j (new_entry 0 0)).in_use
      ≡ (if j == i then w.in_use else (get_or xs j (new_entry 0 0)).in_use)
set_in_use xs i j w lt =
    let read = get_or-set xs i j w (new_entry 0 0) lt in
    elim (Bool-cases (j == i)) [
      | inl e ↦ ap (λ x. x.in_use) read ∙ rw e
      | inr e ↦ ap (λ x. x.in_use) read ∙ rw e
    ]

new_free : (n i a b : ℕ) → (get_or (replicate n (new_entry a b)) i (new_entry 0 0)).in_use ≡ false
new_free zero i a b = refl
new_free (suc n) zero a b = refl
new_free (suc n) (suc i) a b = new_free n i a b

module _ {M : Type 0} where
  abbrev pub marked : EBufferPool M → ℕ → Bool
  marked p i = (entry p i).in_use

  pub marked-lt : (p : EBufferPool M) (i : ℕ) → marked p i ≡ true → i < length p.entries
  unfolding entry
  marked-lt p i e = free_behind p.entries i e

  pub marked-mark :
      (p : EBufferPool M) (i j : ℕ) (b : Bool)
      → i < length p.entries
      → marked (mark p i b) j ≡ (if j == i then b else marked p j)
  unfolding entry mark
  marked-mark p i j b lt =
      set_in_use p.entries i j (record (get_or p.entries i (new_entry 0 0)) { in_use = b }) lt

  pub marked-release :
      (p : EBufferPool M) (i j : ℕ)
      → i < length p.entries
      → marked (buffer_pool_release p (pos i)) j ≡ (if j == i then false else marked p j)
  unfolding buffer_pool_release
  marked-release p i j lt =
      let inside : ltb i (length p.entries) ≡ true = ground arith in
      rw (inside, marked-mark p i j false lt)

  pub new_pool_free :
      (m : M) (count : ℤ) (a b i : ℕ) → marked (buffer_pool_init m count a b) i ≡ false
  unfolding entry
  new_pool_free m count a b i = new_free _ i a b

  module _ (posix_memalign : ℕ → M → Option ℕ × M) where
    pub marked-fill_entry :
        (p : EBufferPool M) (i j : ℕ)
        → i < length p.entries
        → marked (fill_entry posix_memalign p i) j ≡ marked p j
    unfolding entry fill_entry
    marked-fill_entry p i j lt =
        let e = get_or p.entries i (new_entry 0 0) in
        let s = allocate posix_memalign e.slab e.slab_cap p.memory in
        let f = allocate posix_memalign e.fslab e.fslab_cap s.1 in
        set_in_use p.entries i j (record e { slab = s.0; fslab = f.0 }) lt ∙ same_mark j
      where
        same_mark :
            (j : ℕ)
            → (if j == i
                then (get_or p.entries i (new_entry 0 0)).in_use
                else (get_or p.entries j (new_entry 0 0)).in_use)
              ≡ (get_or p.entries j (new_entry 0 0)).in_use
        same_mark j = elim (Bool-cases (j == i)) [
          | inl e ↦ let same : j ≡ i = ground arith in rw (e, same)
          | inr e ↦ rw e
        ]
