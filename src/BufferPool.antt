-- ===== src/BufferPool.antt =====
-- The pool of buffers of c/buffer_pool.h.
pub mod Marks
pub mod Lease
pub mod Threads
mod Tests
use qwanto.Base.{
  ℕ, zero, suc, min, ℤ, pos, negsuc, Bool, true, false, Option, none, some, List, [], ◌∷◌, ◌++◌,
  length, get_or, set, replicate, ltb, if◌then◌else◌,
}

-- `MAX_POOL_SLABS`
abbrev max_pool_slabs : ℕ
max_pool_slabs = 128

-- `none` is NULL.
pub record PoolEntry : Type 0 where
  pub slab : Option ℕ
  pub slab_cap : ℕ
  pub fslab : Option ℕ
  pub fslab_cap : ℕ
  pub in_use : Bool

-- The entries below `count` of an `EBufferPool`, which are the ones that the code reads, with the state
-- `M` of the allocator. The defaults are never read.
pub record EBufferPool (M : Type 0) : Type 0 where
  pub entries : List PoolEntry
  pub memory : M

-- An entry as `buffer_pool_init` leaves it.
abbrev pub new_entry : ℕ → ℕ → PoolEntry
new_entry slab_cap fslab_cap = record {
  slab = none;
  slab_cap = slab_cap;
  fslab = none;
  fslab_cap = fslab_cap;
  in_use = false;
}

-- A negative count has no entries.
abbrev entries_for : ℤ → ℕ
entries_for (pos n) = min n max_pool_slabs
entries_for (negsuc n) = 0

-- `buffer_pool_init`
abbrev pub buffer_pool_init : {M : Type 0} → M → ℤ → ℕ → ℕ → EBufferPool M
buffer_pool_init memory count slab_cap fslab_cap = record {
  entries = replicate (entries_for count) (new_entry slab_cap fslab_cap);
  memory = memory;
}

-- What a lease gives its caller.
pub record Buffers : Type 0 where
  pub lease_id : ℕ
  pub slab_out : Option ℕ
  pub slab_cap_out : ℕ
  pub fslab_out : Option ℕ
  pub fslab_cap_out : ℕ

-- The buffers that `buffer_pool_destroy` frees, in its order.
abbrev buffer : Option ℕ → List ℕ
buffer none = []
buffer (some a) = a ∷ []

unfoldable pub freed : List PoolEntry → List ℕ
freed [] = []
freed (e ∷ es) = buffer e.slab ++ buffer e.fslab ++ freed es

module _ {M : Type 0} where
  unfoldable pub entry : EBufferPool M → ℕ → PoolEntry
  entry p i = get_or p.entries i (new_entry 0 0)

  -- The exchange of `in_use` that succeeds, and the store of `buffer_pool_release`.
  unfoldable pub mark : EBufferPool M → ℕ → Bool → EBufferPool M
  mark p i b = record p { entries = set p.entries i (record (entry p i) { in_use = b }) }

  -- `buffer_pool_release`; the identifier of a lease that failed is -1.
  unfoldable pub buffer_pool_release : EBufferPool M → ℤ → EBufferPool M
  buffer_pool_release p (negsuc n) = p
  buffer_pool_release p (pos i) = if ltb i (length p.entries) then mark p i false else p

  -- `buffer_pool_destroy`
  unfoldable pub buffer_pool_destroy : EBufferPool M → List ℕ × EBufferPool M
  buffer_pool_destroy p = (freed p.entries, record p { entries = [] })

  -- `posix_memalign` at the alignment 16384: the pointer that it leaves where NULL was.
  module _ (posix_memalign : ℕ → M → Option ℕ × M) where
    -- One lazy allocation of `buffer_pool_lease`.
    unfoldable pub allocate : Option ℕ → ℕ → M → Option ℕ × M
    allocate (some a) cap m = (some a, m)
    allocate none zero m = (none, m)
    allocate none (suc n) m = posix_memalign (suc n) m

    -- Both of them, on the entry `i`.
    unfoldable pub fill_entry : EBufferPool M → ℕ → EBufferPool M
    fill_entry p i =
        let e = entry p i in
        let s = allocate e.slab e.slab_cap p.memory in
        let f = allocate e.fslab e.fslab_cap s.1 in
        record { entries = set p.entries i (record e { slab = s.0; fslab = f.0 }); memory = f.1 }

    unfoldable pub outputs : EBufferPool M → ℕ → Buffers
    outputs p i =
        let e = entry p i in
        record {
          lease_id = i;
          slab_out = e.slab;
          slab_cap_out = e.slab_cap;
          fslab_out = e.fslab;
          fslab_cap_out = e.fslab_cap;
        }

    -- The loop of `buffer_pool_lease` over `n` entries from `i` on, where no other thread runs.
    unfoldable pub lease_from : ℕ → ℕ → EBufferPool M → Option Buffers × EBufferPool M
    lease_from zero i p = (none, p)
    lease_from (suc n) i p =
        let rest = lease_from n (suc i) p in
        let filled = fill_entry (mark p i true) i in
        if (entry p i).in_use then rest else (some (outputs filled i), filled)

    -- `buffer_pool_lease`; `none` is -1.
    unfoldable pub buffer_pool_lease : EBufferPool M → Option Buffers × EBufferPool M
    buffer_pool_lease p = lease_from (length p.entries) 0 p
