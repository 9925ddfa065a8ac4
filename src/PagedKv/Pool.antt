-- ===== src/PagedKv/Pool.antt =====
-- The block pool and the block tables of c/qwn_paged_kv.c.
pub mod Tables
use qwanto.Base.{
  ℕ, zero, suc, ◌+◌, ◌-◌, ◌*◌, ◌/◌, ◌^◌, Bool, true, false, ◌||◌, ◌&&◌, not, Option, none, some,
  List, [], ◌∷◌, ◌++◌, ltb, leb, ◌==◌, if◌then◌else◌, length, u64, u64_max,
}

-- QWN_PAGE_BLOCK_SIZE
abbrev pub block_size : ℕ
block_size = 16

-- `QwnKVBlockPool` without its two arenas, which `Address` speaks of. `free_stack` is the live part of the
-- array, its top first, so that `free_top` is its length.
pub record Pool : Type 0 where
  pub free_stack : List ℕ
  pub total_blocks : ℕ
  pub layers : ℕ
  pub kv_heads : ℕ
  pub head_dim : ℕ
  pub block_bytes : ℕ

abbrev pub free_top : Pool → ℕ
free_top pool = length pool.free_stack

-- `for (i = 0; i < total; i++) free_stack[i] = total - 1 - i`: 0 on top, and `total - 1` at the bottom.
-- With `n` blocks left from block `i`.
unfoldable pub fill : ℕ → ℕ → List ℕ
fill zero i = []
fill (suc n) i = i ∷ fill n (i + 1)

-- The overflow checks of `qwn_kv_pool_init`, on a 64-bit size_t: each comes before the product that
-- it guards, which is written with its wrap.
unfoldable pub too_large : ℕ → ℕ → ℕ → ℕ → Bool
too_large total_blocks layers kv_heads head_dim =
    let heads = u64 (layers * kv_heads) in
    let tokens = u64 (heads * block_size) in
    let elems_per_block = u64 (tokens * head_dim) in
    let total_elems = u64 (total_blocks * elems_per_block) in
    ltb (u64_max / kv_heads) layers
    || ltb (u64_max / block_size) heads
    || ltb (u64_max / head_dim) tokens
    || ltb (u64_max / total_blocks) elems_per_block
    || ltb (u64_max / 2) total_elems
    || ltb (u64_max / 4) total_blocks

-- `qwn_kv_pool_init`, where `allocates` says whether the three allocations succeed; `none` is -1.
unfoldable pub pool_init : Bool → ℕ → ℕ → ℕ → ℕ → Option Pool
unfolding fill
pool_init allocates total_blocks layers kv_heads head_dim =
    if total_blocks == 0 || layers == 0 || kv_heads == 0 || head_dim == 0
    then none
    else if too_large total_blocks layers kv_heads head_dim
    then none
    else if not allocates
    then none
    else some (record {
      free_stack = fill total_blocks 0;
      total_blocks = total_blocks;
      layers = layers;
      kv_heads = kv_heads;
      head_dim = head_dim;
      block_bytes = u64 (layers * kv_heads * block_size * head_dim * 2);
    })

-- What `qwn_kv_pool_free` leaves: `memset(pool, 0, sizeof(*pool))`.
abbrev pool_free : Pool → Pool
pool_free pool = record {
  free_stack = [];
  total_blocks = 0;
  layers = 0;
  kv_heads = 0;
  head_dim = 0;
  block_bytes = 0;
}

abbrev pub alloc_from : Pool → List ℕ → Option (ℕ × Pool)
alloc_from pool [] = none
alloc_from pool (block ∷ rest) = some (block, record pool { free_stack = rest })

-- `qwn_kv_pool_alloc_block`
unfoldable pub alloc_block : Pool → Option (ℕ × Pool)
alloc_block pool = alloc_from pool pool.free_stack

-- `qwn_kv_pool_free_block`
unfoldable pub free_block : Pool → ℕ → Pool
free_block pool block =
    if leb pool.total_blocks block || leb pool.total_blocks (free_top pool)
    then pool
    else record pool { free_stack = block ∷ pool.free_stack }

-- `QwnBlockTable`. `block_ids` is the live part of the array, so that `block_count` is its length.
pub record BlockTable : Type 0 where
  pub req_id : ℕ
  pub num_tokens : ℕ
  pub max_tokens : ℕ
  pub block_ids : List ℕ
  pub block_capacity : ℕ
  pub prefill_remaining : ℕ
  pub prefill_offset : ℕ

abbrev pub block_count : BlockTable → ℕ
block_count bt = length bt.block_ids

-- `qwn_block_table_init`; `none` is -1, where the allocation fails.
unfoldable pub table_init : Bool → ℕ → ℕ → Option BlockTable
table_init allocates req_id initial_capacity =
    if allocates
    then some (record {
      req_id = req_id;
      num_tokens = 0;
      max_tokens = 0;
      block_ids = [];
      block_capacity = if ltb 4 initial_capacity then initial_capacity else 4;
      prefill_remaining = 0;
      prefill_offset = 0;
    })
    else none

-- What an operation leaves of a pool and a table, and whether it returned 0.
pub record Result : Type 0 where
  pub success : Bool
  pub pool : Pool
  pub table : BlockTable

unfoldable pub required_blocks : ℕ → ℕ
required_blocks tokens = (tokens + 1 + block_size - 1) / block_size

-- The new block goes to the end of the table, which grows first if it is full; `reallocates` says whether
-- that succeeds. When it does not, the block goes back to the pool. The table is one that has not been freed,
-- with a capacity above 0: on another the code writes past the array.
unfoldable pub push_block : Bool → Pool → BlockTable → ℕ → Result
push_block reallocates pool bt block =
    if leb bt.block_capacity (block_count bt)
    then (if reallocates
        then record {
          success = true;
          pool = pool;
          table = record bt {
            block_capacity = bt.block_capacity * 2;
            block_ids = bt.block_ids ++ (block ∷ []);
            num_tokens = bt.num_tokens + 1;
          };
        }
        else record { success = false; pool = free_block pool block; table = bt })
    else record {
      success = true;
      pool = pool;
      table = record bt {
        block_ids = bt.block_ids ++ (block ∷ []);
        num_tokens = bt.num_tokens + 1;
      };
    }

-- `qwn_block_table_append_token`
unfoldable pub append_token : Bool → Pool → BlockTable → Result
append_token reallocates pool bt =
    if ltb (block_count bt) (required_blocks bt.num_tokens)
    then elim (alloc_block pool) [
      | none ↦ record { success = false; pool = pool; table = bt }
      | some (block, rest) ↦ push_block reallocates rest bt block
    ]
    else record {
      success = true;
      pool = pool;
      table = record bt { num_tokens = bt.num_tokens + 1 };
    }

-- The loop of `qwn_block_table_free`.
unfoldable pub free_blocks : Pool → List ℕ → Pool
free_blocks pool [] = pool
free_blocks pool (block ∷ blocks) = free_blocks (free_block pool block) blocks

-- `qwn_block_table_free`: the pool gets the blocks, and the table is zeroed.
unfoldable pub table_free : Pool → BlockTable → Pool × BlockTable
table_free pool bt = (
  free_blocks pool bt.block_ids,
  record {
    req_id = 0;
    num_tokens = 0;
    max_tokens = 0;
    block_ids = [];
    block_capacity = 0;
    prefill_remaining = 0;
    prefill_offset = 0;
  },
)
