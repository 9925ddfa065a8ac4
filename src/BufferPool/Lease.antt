-- ===== src/BufferPool/Lease.antt =====
-- One call of `buffer_pool_lease`, while no other thread runs.
use qwanto.Base.{
  ℕ, zero, suc, pos, ◌+◌, ◌<◌, ◌≡◌, Bool, true, false, Option, none, some, ◌==◌, length,
  if◌then◌else◌, arith, refl, sym, ◌∙◌, subst, inl, inr, Bool-cases, length-set,
}
use qwanto.BufferPool.{
  EBufferPool, Buffers, entry, mark, fill_entry, outputs, lease_from, buffer_pool_lease,
  buffer_pool_release,
}
use qwanto.BufferPool.Marks.{marked, marked-mark, marked-fill_entry, marked-release}

module _ {M : Type 0} (posix_memalign : ℕ → M → Option ℕ × M) where
  -- The first free entry is leased, and no other mark changes.
  pub record Leased (p : EBufferPool M) (b : Buffers) (q : EBufferPool M) : Type 0 where
    pub inside : b.lease_id < length p.entries
    pub was_free : marked p b.lease_id ≡ false
    pub first : (j : ℕ) → j < b.lease_id → marked p j ≡ true
    pub marks : (j : ℕ) → marked q j ≡ (if j == b.lease_id then true else marked p j)
    pub size : length q.entries ≡ length p.entries
    pub gives : b ≡ outputs posix_memalign q b.lease_id

  -- What a call may return.
  unfoldable pub IsLease : EBufferPool M → Option Buffers × EBufferPool M → Type 0
  IsLease p (none, q) = ((j : ℕ) → j < length p.entries → marked p j ≡ true) × (q ≡ p)
  IsLease p (some b, q) = Leased p b q

  length-mark :
      (p : EBufferPool M) (i : ℕ) (b : Bool) → length (mark p i b).entries ≡ length p.entries
  unfolding mark
  length-mark p i b = length-set p.entries i _

  length-fill_entry :
      (p : EBufferPool M) (i : ℕ)
      → length (fill_entry posix_memalign p i).entries ≡ length p.entries
  unfolding fill_entry
  length-fill_entry p i = length-set p.entries i _

  lease_from-IsLease :
      (n i : ℕ) (p : EBufferPool M)
      → i + n ≡ length p.entries
      → ((j : ℕ) → j < i → marked p j ≡ true)
      → IsLease p (lease_from posix_memalign n i p)
  unfolding lease_from IsLease outputs
  lease_from-IsLease zero i p size below = (λ j lt. below j (omega arith), refl)
  lease_from-IsLease (suc n) i p size below = elim (Bool-cases (marked p i)) [
    | inl e ↦
        subst
          (λ b. IsLease p (
            if b
            then lease_from posix_memalign n (suc i) p
            else (some (outputs posix_memalign q i), q)))
          (sym e) (lease_from-IsLease n (suc i) p (omega arith) (λ j lt. ground (arith, below j)))
    | inr e ↦
        subst
          (λ b. IsLease p (
            if b
            then lease_from posix_memalign n (suc i) p
            else (some (outputs posix_memalign q i), q)))
          (sym e) (leased e)
  ]
    where
      q : EBufferPool M
      q = fill_entry posix_memalign (mark p i true) i

      leased : marked p i ≡ false → Leased p (outputs posix_memalign q i) q
      leased e = record {
        inside = omega arith;
        was_free = e;
        first = below;
        marks = λ j.
            marked-fill_entry posix_memalign (mark p i true) i j
              (omega (arith, length-mark p i true))
            ∙ marked-mark p i j true (omega arith);
        size = length-fill_entry (mark p i true) i ∙ length-mark p i true;
        gives = refl;
      }

  -- A call with no other thread running leases the first free entry: it marks that one and changes no
  -- other mark, and gives the buffers that the entry then has, with their capacities. It returns -1
  -- exactly where every entry is in use, and then it changes nothing.
  pub buffer_pool_lease-IsLease :
      (p : EBufferPool M) → IsLease p (buffer_pool_lease posix_memalign p)
  unfolding buffer_pool_lease
  buffer_pool_lease-IsLease p =
      lease_from-IsLease (length p.entries) 0 p (omega arith) (λ j lt. elim lt [ ])

  -- The release of a lease that was just given makes every mark what it was before the call.
  buffer_pool_release-buffer_pool_lease :
      (p q : EBufferPool M) (b : Buffers)
      → buffer_pool_lease posix_memalign p ≡ (some b, q)
      → (j : ℕ) → (entry (buffer_pool_release q (pos b.lease_id)) j).in_use ≡ (entry p j).in_use
  unfolding IsLease
  buffer_pool_release-buffer_pool_lease p q b e j =
      let l : Leased p b q = subst (λ r. IsLease p r) e (buffer_pool_lease-IsLease p) in
      ground (
        arith,
        marked-release q b.lease_id j (omega (arith, l.inside, l.size)),
        l.marks j,
        l.was_free,
      )
