-- ===== src/PagedKv/Pool/Tables.antt =====
-- What an append does, case by case, and the shape of a block table.
use qwanto.Base.{
  ℕ, ◌+◌, ◌*◌, ◌/◌, ◌≤◌, ◌<◌, ◌≡◌, refl, Bool, true, false, none, some, inl, inr, List, [], ◌∷◌,
  ◌++◌, arith, length-append, if◌then◌else◌, Bool-cases, leb, ltb,
}
use qwanto.PagedKv.Pool.{
  table_free, Pool, BlockTable, Result, block_count, table_init, append_token, push_block,
  alloc_block, alloc_from, required_blocks, free_block,
}

-- The four ways in which `qwn_block_table_append_token` ends.
pub data Appended (pool : Pool) (bt : BlockTable) (r : Result) : Type 0 where
  -- no free block
  refused :
      pool.free_stack ≡ []
      → block_count bt < required_blocks bt.num_tokens
      → r ≡ record { success = false; pool = pool; table = bt }
      → Appended pool bt r
  -- the last block has room
  within :
      required_blocks bt.num_tokens ≤ block_count bt
      → r ≡ record {
        success = true;
        pool = pool;
        table = record bt { num_tokens = bt.num_tokens + 1 };
      }
      → Appended pool bt r
  -- the block on top of the free stack
  pushed :
      (block : ℕ) (rest : List ℕ) (capacity : ℕ)
      → pool.free_stack ≡ block ∷ rest
      → block_count bt < required_blocks bt.num_tokens
      → (0 < bt.block_capacity → block_count bt ≤ bt.block_capacity → block_count bt < capacity)
      → r ≡ record {
        success = true;
        pool = record pool { free_stack = rest };
        table = record bt {
          block_capacity = capacity;
          block_ids = bt.block_ids ++ (block ∷ []);
          num_tokens = bt.num_tokens + 1;
        };
      }
      → Appended pool bt r
  -- no memory for the longer table: the block goes back
  returned :
      (block : ℕ) (rest : List ℕ)
      → pool.free_stack ≡ block ∷ rest
      → block_count bt < required_blocks bt.num_tokens
      → r ≡ record {
        success = false;
        pool = free_block (record pool { free_stack = rest }) block;
        table = bt;
      }
      → Appended pool bt r

push_block-Appended :
    (reallocates : Bool) (pool : Pool) (bt : BlockTable) (block : ℕ) (rest : List ℕ)
    → pool.free_stack ≡ block ∷ rest
    → block_count bt < required_blocks bt.num_tokens
    → Appended pool bt (push_block reallocates (record pool { free_stack = rest }) bt block)
unfolding push_block
push_block-Appended reallocates pool bt block rest e h =
    elim (Bool-cases (leb bt.block_capacity (block_count bt))) [
      | inl full ↦ elim (Bool-cases reallocates) [
        | inl grown ↦
            rw (full, push_block)
              (rw grown (pushed block rest (bt.block_capacity * 2) e h (λ p q. ground arith) refl))
        | inr failed ↦ rw (full, push_block) (rw failed (returned block rest e h refl))
      ]
      | inr room ↦
          rw (room, push_block) (pushed block rest bt.block_capacity e h (λ p q. ground arith) refl)
    ]

-- Every append ends in one of them.
pub append_token-Appended :
    (reallocates : Bool) (pool : Pool) (bt : BlockTable)
    → Appended pool bt (append_token reallocates pool bt)
unfolding append_token alloc_block
append_token-Appended reallocates pool bt =
    elim (Bool-cases (ltb (block_count bt) (required_blocks bt.num_tokens))) [
      | inl needed ↦ rw (needed, append_token) (on_stack pool.free_stack refl (ground arith))
      | inr enough ↦ rw (enough, append_token) (within (ground arith) refl)
    ]
  where
    on_stack :
        (stack : List ℕ)
        → pool.free_stack ≡ stack
        → block_count bt < required_blocks bt.num_tokens
        → Appended pool bt (elim (alloc_from pool stack) [
          | none ↦ record { success = false; pool = pool; table = bt }
          | some (block, rest) ↦ push_block reallocates rest bt block
        ])
    on_stack [] e h = refused e h refl
    on_stack (block ∷ rest) e h = push_block-Appended reallocates pool bt block rest e h

-- The blocks are exactly those that the tokens need, and they are within the capacity.
pub record IsTable (bt : BlockTable) : Type 0 where
  pub exact : block_count bt ≡ (bt.num_tokens + 15) / 16
  pub room : block_count bt ≤ bt.block_capacity
  pub some_room : 0 < bt.block_capacity

-- A new table has the shape, no token and room for at least four blocks.
table_init-IsTable :
    (allocates : Bool) (req_id capacity : ℕ) {bt : BlockTable}
    → table_init allocates req_id capacity ≡ some bt
    → IsTable bt × (bt.num_tokens ≡ 0) × (4 ≤ bt.block_capacity) × (capacity ≤ bt.block_capacity)
unfolding table_init
table_init-IsTable allocates req_id capacity e = ground arith

-- An append keeps the shape. It succeeds with one token more, or fails and leaves the table as it was.
pub append_token-IsTable :
    (reallocates : Bool) (pool : Pool) (bt : BlockTable)
    → IsTable bt
    → let r = append_token reallocates pool bt in
      IsTable r.table
      × (r.table.num_tokens ≡ (if r.success then bt.num_tokens + 1 else bt.num_tokens))
unfolding required_blocks
append_token-IsTable reallocates pool bt v = go (append_token-Appended reallocates pool bt)
  where
    go :
        {r : Result}
        → Appended pool bt r
        → IsTable r.table
          × (r.table.num_tokens ≡ (if r.success then bt.num_tokens + 1 else bt.num_tokens))
    go (refused e h q) = ground arith
    go (within h q) = ground arith
    go (pushed block rest capacity e h c q) =
        ground (arith, c v.some_room v.room, length-append bt.block_ids (block ∷ []))
    go (returned block rest e h q) = ground arith

-- A freed table has no capacity, and doubling gives it none: where `realloc` to no bytes succeeds, an
-- append on it stores the id of a block beyond the end of its array.
append_token-table_free :
    (pool : Pool) (bt : BlockTable) (block : ℕ) (rest : List ℕ)
    → (table_free pool bt).0.free_stack ≡ block ∷ rest
    → let t = table_free pool bt in
      let r = append_token true t.0 t.1 in
      (r.success ≡ true) × (r.table.block_ids ≡ block ∷ []) × (r.table.block_capacity ≡ 0)
unfolding append_token alloc_block push_block required_blocks table_free
append_token-table_free pool bt block rest e = ground arith
