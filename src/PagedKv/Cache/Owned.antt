-- ===== src/PagedKv/Cache/Owned.antt =====
-- Every physical block has exactly one owner, after any history of calls.
use qwanto.Base.{
  ℕ, ◌+◌, ◌≤◌, ◌<◌, ◌≡◌, refl, sym, ◌∙◌, ap, subst, Bool, true, false, some, inl, inr, List, [],
  ◌∷◌, ◌++◌, arith, length, length-append, get_elem?, set, Option-cases, All,
}
use qwanto.PagedKv.Pool.{
  Pool, BlockTable, Result, table_init, free_block, free_blocks, table_free, pool_init, fill,
  free_top,
}
use qwanto.PagedKv.Pool.Tables.{Appended, refused, within, pushed, returned, append_token-Appended}
use qwanto.PagedKv.Cache.{
  Cache, Call, AreProper, starts, appends, frees, start, append, free, step, run,
}
use qwanto.PagedKv.Cache.Counts.{
  count, count_tables, held, indicator, count-append, count_tables-set, held-set, count-All,
  count_tables-le, held-le, count-fill, length-fill,
}

-- Each of the pool's blocks is on the free stack or in one table, once; and there are no others.
pub record IsPartition (c : Cache) : Type 0 where
  pub once :
      (a : ℕ)
      → count a c.pool.free_stack + count_tables a c.tables ≡ indicator c.pool.total_blocks a
  pub total : length c.pool.free_stack + held c.tables ≡ c.pool.total_blocks

free_block_lem :
    (pool : Pool) (b : ℕ)
    → b < pool.total_blocks
    → length pool.free_stack < pool.total_blocks
    → free_block pool b ≡ record pool { free_stack = b ∷ pool.free_stack }
unfolding free_block
free_block_lem pool b h k = ground arith

-- Freeing blocks of the pool, with room for all, frees each of them.
abbrev Freed : Pool → List ℕ → Pool → Type 0
Freed pool bs q =
    ((a : ℕ) → count a q.free_stack ≡ count a pool.free_stack + count a bs)
    × (length q.free_stack ≡ length pool.free_stack + length bs)
    × (q.total_blocks ≡ pool.total_blocks)

free_blocks-Freed :
    (bs : List ℕ) (pool : Pool)
    → All (λ b. b < pool.total_blocks) bs
    → length pool.free_stack + length bs ≤ pool.total_blocks
    → Freed pool bs (free_blocks pool bs)
unfolding free_blocks
free_blocks-Freed [] pool a h = (λ x. omega arith, omega arith, refl)
free_blocks-Freed (b ∷ bs) pool a h =
    let q : Pool = record pool { free_stack = b ∷ pool.free_stack } in
    let f = free_blocks-Freed bs q a.1 (omega arith) in
    rw (free_block_lem pool b a.0 (omega arith), free_blocks)
      (λ x. omega (arith, f.0 x), omega (arith, f.1), f.2)

-- A call that moves blocks between the pool and one table keeps the partition.
moved-IsPartition :
    (c : Cache) (i : ℕ) (pool : Pool) (u : BlockTable) {t : BlockTable}
    → get_elem? c.tables i ≡ some t
    → IsPartition c
    → ((a : ℕ)
        → count a pool.free_stack + count a u.block_ids
          ≡ count a c.pool.free_stack + count a t.block_ids)
    → length pool.free_stack + length u.block_ids ≡ length c.pool.free_stack + length t.block_ids
    → pool.total_blocks ≡ c.pool.total_blocks
    → IsPartition (record { pool = pool; tables = set c.tables i u })
moved-IsPartition c i pool u e v counts lengths total = record {
  once = λ a.
      omega (
        arith,
        counts a,
        v.once a,
        count_tables-set a c.tables i u e,
        ap (λ n. indicator n a) total,
      );
  total = omega (arith, lengths, v.total, held-set c.tables i u e, total);
}

free-IsPartition :
    (c : Cache) (i : ℕ) {bt : BlockTable}
    → get_elem? c.tables i ≡ some bt
    → IsPartition c
    → IsPartition (free c i bt)
unfolding free table_free
free-IsPartition c i {bt} e v =
    let t = table_free c.pool bt in
    moved-IsPartition c i t.0 t.1 e v (λ a. omega (arith, freed.0 a)) (omega (arith, freed.1))
      freed.2
  where
    below : All (λ b. b < c.pool.total_blocks) bt.block_ids
    below =
        count-All c.pool.total_blocks bt.block_ids
          (λ a. omega (arith, v.once a, count_tables-le a c.tables i e))

    freed : Freed c.pool bt.block_ids (free_blocks c.pool bt.block_ids)
    freed =
        free_blocks-Freed bt.block_ids c.pool below (omega (arith, v.total, held-le c.tables i e))

-- The block on top of the stack is one of the pool's, and without it there is room for it.
top_lem :
    (c : Cache) {block : ℕ} {rest : List ℕ}
    → c.pool.free_stack ≡ block ∷ rest
    → IsPartition c
    → (block < c.pool.total_blocks) × (length rest < c.pool.total_blocks)
top_lem c {block} {rest} p v =
    (ground (arith, v.once block, ap (count block) p), omega (arith, v.total, ap length p))

append-IsPartition :
    (c : Cache) (reallocates : Bool) (i : ℕ) (bt : BlockTable)
    → get_elem? c.tables i ≡ some bt
    → IsPartition c
    → IsPartition (append c reallocates i bt)
unfolding append
append-IsPartition c reallocates i bt e v = go (append_token-Appended reallocates c.pool bt)
  where
    Goal : Result → Type 0
    Goal r = IsPartition (record { pool = r.pool; tables = set c.tables i r.table })

    go : {r : Result} → Appended c.pool bt r → Goal r
    go (refused p h q) =
        subst Goal (sym q) (moved-IsPartition c i c.pool bt e v (λ a. refl) refl refl)
    go (within h q) = subst Goal (sym q) (
        moved-IsPartition c i c.pool (record bt { num_tokens = bt.num_tokens + 1 }) e v (λ a. refl)
          refl refl)
    go (pushed block rest capacity p h k q) = subst Goal (sym q) (
        moved-IsPartition c i (record c.pool { free_stack = rest })
          (record bt {
            num_tokens = bt.num_tokens + 1;
            block_ids = bt.block_ids ++ (block ∷ []);
            block_capacity = capacity;
          })
          e v (λ a. omega (arith, ap (count a) p, count-append a bt.block_ids (block ∷ [])))
          (omega (arith, ap length p, length-append bt.block_ids (block ∷ []))) refl)
    go (returned block rest p h q) =
        let w = top_lem c p v in
        let s : Pool = record c.pool { free_stack = rest } in
        subst Goal
          (sym (
            q
            ∙ ap (λ x. record { success = false; pool = x; table = bt })
                (free_block_lem s block w.0 w.1)))
          (moved-IsPartition c i (record c.pool { free_stack = block ∷ rest }) bt e v
            (λ a. omega (arith, ap (count a) p)) (omega (arith, ap length p)) refl)

start-IsPartition :
    (c : Cache) (allocates : Bool) (req_id capacity : ℕ)
    → IsPartition c
    → IsPartition (start c allocates req_id capacity)
unfolding start table_init
start-IsPartition c true req_id capacity v = record {
  once = λ a. omega (arith, v.once a);
  total = omega (arith, v.total);
}
start-IsPartition c false req_id capacity v = v

-- Any call keeps the partition of a pool's blocks into the free ones and those of each request.
step-IsPartition : (c : Cache) (call : Call) → IsPartition c → IsPartition (step c call)
unfolding step
step-IsPartition c (starts allocates req_id capacity) v =
    start-IsPartition c allocates req_id capacity v
step-IsPartition c (appends reallocates i) v = elim (Option-cases (get_elem? c.tables i)) [
  | inl p ↦ rw (step, p) v
  | inr (bt, p) ↦ rw (step, p) (append-IsPartition c reallocates i bt p v)
]
step-IsPartition c (frees i) v = elim (Option-cases (get_elem? c.tables i)) [
  | inl p ↦ rw (step, p) v
  | inr (bt, p) ↦ rw (step, p) (free-IsPartition c i p v)
]

run-IsPartition : (c : Cache) (calls : List Call) → IsPartition c → IsPartition (run c calls)
unfolding run
run-IsPartition c [] v = v
run-IsPartition c (call ∷ calls) v = run-IsPartition (step c call) calls (step-IsPartition c call v)

-- What `pool_init` gives.
pool_init-fill :
    (allocates : Bool) (total_blocks layers kv_heads head_dim : ℕ) {pool : Pool}
    → pool_init allocates total_blocks layers kv_heads head_dim ≡ some pool
    → (pool.free_stack ≡ fill total_blocks 0) × (pool.total_blocks ≡ total_blocks)
unfolding pool_init
pool_init-fill allocates total_blocks layers kv_heads head_dim h = ground arith

-- A new pool, without requests, is partitioned: all its blocks are free.
pool_init-IsPartition :
    (allocates : Bool) (total_blocks layers kv_heads head_dim : ℕ) {pool : Pool}
    → pool_init allocates total_blocks layers kv_heads head_dim ≡ some pool
    → IsPartition (record { pool = pool; tables = [] })
pool_init-IsPartition allocates total_blocks layers kv_heads head_dim h =
    let w = pool_init-fill allocates total_blocks layers kv_heads head_dim h in
    record {
      once = λ a. ground (arith, ap (count a) w.0, w.1, count-fill a total_blocks 0);
      total = omega (arith, ap length w.0, w.1, length-fill total_blocks 0);
    }

-- From a new pool, after any sequence of requests that start, append tokens and are freed, with no append on a
-- table that has been freed and with any outcomes of the allocations, each block below `total_blocks` is on the free stack or in one table, exactly once
-- among them all, and no other number is in either.
pub history-IsPartition :
    (allocates : Bool) (total_blocks layers kv_heads head_dim : ℕ) (calls : List Call) {pool : Pool}
    → pool_init allocates total_blocks layers kv_heads head_dim ≡ some pool
    → AreProper (record { pool = pool; tables = [] }) calls
    → IsPartition (run (record { pool = pool; tables = [] }) calls)
history-IsPartition allocates total_blocks layers kv_heads head_dim calls h proper =
    run-IsPartition _ calls
      (pool_init-IsPartition allocates total_blocks layers kv_heads head_dim h)

-- `free_block` does not see that a block is free: with room for two, freeing a block of the pool twice puts
-- it on the stack twice.
free_block-free_block :
    (pool : Pool) (block : ℕ)
    → block < pool.total_blocks
    → free_top pool + 1 < pool.total_blocks
    → count block (free_block (free_block pool block) block).free_stack
      ≡ count block pool.free_stack + 2
free_block-free_block pool block h k =
    let q : Pool = record pool { free_stack = block ∷ pool.free_stack } in
    rw (free_block_lem pool block h (omega arith), free_block_lem q block h (omega arith)) ground
      arith
