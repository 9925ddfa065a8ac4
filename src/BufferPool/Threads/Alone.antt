-- ===== src/BufferPool/Threads/Alone.antt =====
-- A call of `buffer_pool_lease` that no other thread disturbs, as steps of its thread.
use qwanto.Base.{
  ℕ, zero, suc, ◌+◌, ◌≡◌, true, Option, none, some, length, if◌then◌else◌, arith, sym, subst, inl,
  inr, Bool-cases,
}
use qwanto.BufferPool.{
  EBufferPool, Buffers, mark, fill_entry, outputs, lease_from, buffer_pool_lease,
}
use qwanto.BufferPool.Marks.{marked}
use qwanto.BufferPool.Threads.{Pc, idle, scans, leased, Move, begins, wins, loses, gives_up, fills}

module _ {M : Type 0} (posix_memalign : ℕ → M → Option ℕ × M) where
  -- Steps of one thread in a row.
  pub data Moves : EBufferPool M → Pc → EBufferPool M → Pc → Type 0 where
    done : {p : EBufferPool M} {x : Pc} → Moves p x p x
    next :
        {p q r : EBufferPool M} {x y z : Pc}
        → Move posix_memalign p x q y
        → Moves q y r z
        → Moves p x r z

  -- Where a thread stands with what the call returns.
  unfoldable pub returned : Option Buffers → Pc
  returned none = idle
  returned (some b) = leased b.lease_id

  lease_from-Moves :
      (n i : ℕ) (p : EBufferPool M)
      → i + n ≡ length p.entries
      → let r = lease_from posix_memalign n i p in Moves p (scans i) r.1 (returned r.0)
  unfolding lease_from returned outputs
  lease_from-Moves zero i p size = next (gives_up (omega arith)) done
  lease_from-Moves (suc n) i p size = elim (Bool-cases (marked p i)) [
    | inl e ↦
        subst (λ b. After (if b then rest else here)) (sym e)
          (next (loses (omega arith) e) (lease_from-Moves n (suc i) p (omega arith)))
    | inr e ↦
        subst (λ b. After (if b then rest else here)) (sym e)
          (next (wins (omega arith) e) (next fills done))
  ]
    where
      After : Option Buffers × EBufferPool M → Type 0
      After r = Moves p (scans i) r.1 (returned r.0)

      rest : Option Buffers × EBufferPool M
      rest = lease_from posix_memalign n (suc i) p

      q : EBufferPool M
      q = fill_entry posix_memalign (mark p i true) i

      here : Option Buffers × EBufferPool M
      here = (some (outputs posix_memalign q i), q)

  -- What buffer_pool_lease does as one call, its thread can do by its own steps, in a row: from outside
  -- the pool they lead to the lease that the call returns, or back outside where it returns -1, and they
  -- leave the pool and the allocator as the call does.
  pub buffer_pool_lease-Moves :
      (p : EBufferPool M)
      → Moves p idle
          (buffer_pool_lease posix_memalign p).1
          (returned (buffer_pool_lease posix_memalign p).0)
  unfolding buffer_pool_lease
  buffer_pool_lease-Moves p = next begins (lease_from-Moves (length p.entries) 0 p (omega arith))
