-- ===== src/BufferPool/Threads/Exclusive.antt =====
-- What the lock-free leases of c/buffer_pool.h give threads that run at the same time.
use qwanto.Base.{ℕ, ℤ, ◌≡◌, ◌↔◌, true, Option}
use qwanto.BufferPool.{entry}
use qwanto.BufferPool.Threads.{has, System, Reach}
use qwanto.BufferPool.Threads.Invariant.{Reach-Inv}

module _ {M : Type 0} (posix_memalign : ℕ → M → Option ℕ × M) where
  -- In every state that threads reach from a new pool, by any interleaving of leases and releases of
  -- their own leases, two threads that have the same entry, between the exchange that set its in_use and
  -- its release, are one thread.
  pub lease-exclusive :
      {m : M} {count : ℤ} {slab_cap fslab_cap : ℕ} {s : System posix_memalign}
      → Reach posix_memalign m count slab_cap fslab_cap s
      → (t u i : ℕ) → has (s.pc t) i ≡ true
      → has (s.pc u) i ≡ true
      → t ≡ u
  lease-exclusive r = (Reach-Inv posix_memalign r).unique

  -- In every such state the entries that are marked in use are exactly those that a thread has: no
  -- entry is lost, and none is free while a thread has it.
  pub in_use-has :
      {m : M} {count : ℤ} {slab_cap fslab_cap : ℕ} {s : System posix_memalign}
      → Reach posix_memalign m count slab_cap fslab_cap s
      → (i : ℕ) → ((entry s.pool i).in_use ≡ true) ↔ ((t : ℕ) × (has (s.pc t) i ≡ true))
  in_use-has r i = let inv = Reach-Inv posix_memalign r in (inv.owned i, λ w. inv.kept w.0 i w.1)
