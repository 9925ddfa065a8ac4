-- ===== src/BufferPool/Threads.antt =====
-- Threads that lease and release buffers of one pool, interleaved in any order.
pub mod Invariant
pub mod Exclusive
pub mod Alone
use qwanto.Base.{
  ℕ, zero, suc, ℤ, pos, ◌≤◌, ◌<◌, ◌≡◌, Bool, true, false, Option, ◌==◌, length, if◌then◌else◌,
}
use qwanto.BufferPool.{EBufferPool, entry, mark, fill_entry, buffer_pool_init, buffer_pool_release}

-- Where a thread stands.
pub data Pc : Type 0 where
  -- outside the pool, without a lease
  idle : Pc
  -- at the head of the loop of `buffer_pool_lease`
  scans : ℕ → Pc
  -- behind the exchange that succeeded
  won : ℕ → Pc
  -- returned with a lease
  leased : ℕ → Pc

-- The thread has set `in_use` of the entry and not yet released it.
unfoldable pub has : Pc → ℕ → Bool
has idle i = false
has (scans j) i = false
has (won j) i = j == i
has (leased j) i = j == i

module _ {M : Type 0} (posix_memalign : ℕ → M → Option ℕ × M) where
  -- One step of a thread; it releases only the lease that it has.
  pub data Move (p : EBufferPool M) : Pc → EBufferPool M → Pc → Type 0 where
    begins : Move p idle p (scans 0)
    wins :
        {i : ℕ}
        → i < length p.entries
        → (entry p i).in_use ≡ false
        → Move p (scans i) (mark p i true) (won i)
    loses :
        {i : ℕ}
        → i < length p.entries
        → (entry p i).in_use ≡ true
        → Move p (scans i) p (scans (suc i))
    gives_up : {i : ℕ} → length p.entries ≤ i → Move p (scans i) p idle
    fills : {i : ℕ} → Move p (won i) (fill_entry posix_memalign p i) (leased i)
    releases : {i : ℕ} → Move p (leased i) (buffer_pool_release p (pos i)) idle

  pub record System : Type 0 where
    pub pool : EBufferPool M
    pub pc : ℕ → Pc

  abbrev pub update : (ℕ → Pc) → ℕ → Pc → ℕ → Pc
  update pc t x u = if u == t then x else pc u

  pub data Step (s : System) : System → Type 0 where
    runs :
        (t : ℕ) {p : EBufferPool M} {x : Pc}
        → Move s.pool (s.pc t) p x
        → Step s (record { pool = p; pc = update s.pc t x })

  -- A new pool, with no lease.
  abbrev init : M → ℤ → ℕ → ℕ → System
  init m count slab_cap fslab_cap = record {
    pool = buffer_pool_init m count slab_cap fslab_cap;
    pc = λ t. idle;
  }

  pub data Reach (m : M) (count : ℤ) (slab_cap fslab_cap : ℕ) : System → Type 0 where
    start : Reach m count slab_cap fslab_cap (init m count slab_cap fslab_cap)
    later :
        {s t : System}
        → Reach m count slab_cap fslab_cap s
        → Step s t
        → Reach m count slab_cap fslab_cap t
