-- ===== src/BufferPool/Tests.antt =====
-- Runs of the buffer pool, and its theorems at concrete inputs.
use qwanto.Base.{
  ℕ, ◌+◌, pos, negsuc, ◌≡◌, ◌↔◌, arith, true, false, Option, none, some, [], ◌∷◌, length, refl,
}
use qwanto.BufferPool.{
  EBufferPool, Buffers, entry, buffer_pool_init, buffer_pool_lease, buffer_pool_destroy, lease_from,
  outputs, fill_entry, mark, allocate, freed,
}
use qwanto.BufferPool.Threads.Alone.{Moves, returned, buffer_pool_lease-Moves}
use qwanto.BufferPool.Threads.{
  idle, leased, System, Reach, has, begins, wins, loses, fills, runs, start, later,
}
use qwanto.BufferPool.Threads.Exclusive.{lease-exclusive, in_use-has}

-- An allocator whose addresses go up; it never fails.
abbrev counting : ℕ → ℕ → Option ℕ × ℕ
counting size next = (some next, next + 1)

abbrev two_buffers : EBufferPool ℕ
two_buffers = buffer_pool_init 7 (pos 2) 4096 0

-- The first lease allocates the slab; the other buffer has no capacity and stays NULL.
abbrev first_buffers : Buffers
first_buffers = record {
  lease_id = 0;
  slab_out = some 7;
  slab_cap_out = 4096;
  fslab_out = none;
  fslab_cap_out = 0;
}

abbrev after_lease : EBufferPool ℕ
after_lease = record {
  entries =
      record { slab = some 7; slab_cap = 4096; fslab = none; fslab_cap = 0; in_use = true }
      ∷ record { slab = none; slab_cap = 4096; fslab = none; fslab_cap = 0; in_use = false }
      ∷ [];
  memory = 8;
}

first_lease : buffer_pool_lease counting two_buffers ≡ (some first_buffers, after_lease)
unfolding buffer_pool_lease lease_from entry outputs fill_entry mark allocate
first_lease = refl

too_many : length (buffer_pool_init {M = ℕ} 0 (pos 500) 1 1).entries ≡ 128
too_many = refl

no_buffers : (buffer_pool_lease counting (buffer_pool_init 0 (negsuc 4) 1 1)).0 ≡ none
unfolding buffer_pool_lease lease_from
no_buffers = refl

destroyed : (buffer_pool_destroy after_lease).0 ≡ 7 ∷ []
unfolding buffer_pool_destroy freed
destroyed = refl

-- Thread 3 has leased entry 0, thread 5 has passed it and won entry 1, and thread 6 has just begun.
abbrev contended : (s : System counting) × Reach counting 7 (pos 2) 4096 0 s
unfolding entry mark fill_entry allocate
contended = (
  _,
  later
      (later
        (later
          (later
            (later (later (later start (runs 3 begins)) (runs 5 begins))
              (runs 3 (wins (omega arith) refl)))
            (runs 5 (loses (omega arith) refl)))
          (runs 3 fills))
        (runs 5 (wins (omega arith) refl)))
      (runs 6 begins),
)

lease-exclusive_example : ◌≡◌ {A = ℕ} 5 5
unfolding has contended
lease-exclusive_example = lease-exclusive counting contended.1 5 5 1 refl refl

in_use-has_example :
    ((entry contended.0.pool 1).in_use ≡ true) ↔ ((t : ℕ) × (has (contended.0.pc t) 1 ≡ true))
in_use-has_example = in_use-has counting contended.1 1

buffer_pool_lease-Moves_example : Moves counting two_buffers idle after_lease (leased 0)
unfolding buffer_pool_lease lease_from entry outputs fill_entry mark allocate returned
buffer_pool_lease-Moves_example = buffer_pool_lease-Moves counting two_buffers
