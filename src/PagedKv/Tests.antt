-- ===== src/PagedKv/Tests.antt =====
-- A pool of two blocks, and the theorems at it.
use qwanto.Base.{
  subst, some_eq, ◌<◌, ℕ, some, ◌/◌, ◌-◌, ◌*◌, ◌^◌, ◌<◌, Option, none, inl, inr, ltb, ◌+◌, ◌≡◌,
  refl, true, List, [], ◌∷◌, arith,
}
use qwanto.PagedKv.Pool.{
  table_init, append_token, required_blocks, alloc_block, push_block, table_free, free_blocks,
  free_block, Pool, BlockTable, fill, pool_init, too_large,
}
use qwanto.PagedKv.Cache.{AreProper, step, start, append, free, Call, starts, appends, frees, run}
use qwanto.PagedKv.Cache.Owned.{IsPartition, history-IsPartition}
use qwanto.PagedKv.Half.{float_to_half, half_to_float}
use qwanto.PagedKv.Half.Laws.{flushed, float_to_half-half_to_float}
use qwanto.PagedKv.Arena.{Arenas, kv_write}
use qwanto.PagedKv.Arena.Slots.{Slot, InPool, slot_index, slot_index-lt}
use qwanto.PagedKv.Arena.Write.{kv_write-own, kv_write-other}
use qwanto.PagedKv.Attention.{Floats, attention_head, gather_head}
use qwanto.PagedKv.Attention.Gathered.{gather_head-attention_head}

-- Two layers, one head of two numbers.
abbrev sample_pool : Pool
sample_pool = record {
  free_stack = 0 ∷ 1 ∷ [];
  total_blocks = 2;
  layers = 2;
  kv_heads = 1;
  head_dim = 2;
  block_bytes = 128;
}

-- Two requests take a block each, a third append finds none, and the first request gives its block back.
abbrev sample_calls : List Call
sample_calls =
    starts true 7 0
    ∷ appends true 0
    ∷ starts true 8 0
    ∷ appends true 0
    ∷ starts true 9 0
    ∷ appends true 0
    ∷ frees 2
    ∷ []

sample_calls-AreProper : AreProper (record { pool = sample_pool; tables = [] }) sample_calls
unfolding step start table_init append append_token required_blocks alloc_block push_block free
    table_free free_blocks free_block
sample_calls-AreProper = (
  tt,
  (
    (λ bt e. subst (λ (t : BlockTable). 0 < t.block_capacity) (some_eq e) (omega arith)),
    (
      tt,
      (
        (λ bt e. subst (λ (t : BlockTable). 0 < t.block_capacity) (some_eq e) (omega arith)),
        (
          tt,
          (
            (λ bt e. subst (λ (t : BlockTable). 0 < t.block_capacity) (some_eq e) (omega arith)),
            (tt, tt),
          ),
        ),
      ),
    ),
  ),
)

history-IsPartition_example :
    IsPartition (run (record { pool = sample_pool; tables = [] }) sample_calls)
unfolding pool_init too_large fill
history-IsPartition_example =
    history-IsPartition true 2 2 1 2 sample_calls refl sample_calls-AreProper

abbrev sample_table : BlockTable
sample_table = record {
  req_id = 7;
  num_tokens = 16;
  max_tokens = 0;
  block_ids = 1 ∷ [];
  block_capacity = 4;
  prefill_remaining = 0;
  prefill_offset = 0;
}

float_to_half-half_to_float_example : float_to_half (half_to_float 0x3c01) ≡ flushed 0x3c01
float_to_half-half_to_float_example = float_to_half-half_to_float 0x3c01 (omega arith)

abbrev first_slot : Slot
first_slot = record { phys_block = 1; layer = 1; kh = 0; offset = 15; j = 1 }

first-InPool : InPool sample_pool first_slot
first-InPool = record {
  layer_lt = omega arith;
  kh_lt = omega arith;
  offset_lt = omega arith;
  j_lt = omega arith;
}

slot_index-lt_example : slot_index sample_pool first_slot < 2 * (2 * 1 * 16 * 2)
slot_index-lt_example = slot_index-lt sample_pool first_slot (omega arith) first-InPool

abbrev zero_arenas : Arenas
zero_arenas = record { key_data = λ i. 0; val_data = λ i. 0 }

abbrev written : Option Arenas → Arenas
written none = zero_arenas
written (some a) = a

-- Token 15 of the sample table, in block 1, at layer 1: ones as keys, twos as values.
abbrev sample_written : Arenas
sample_written =
    written (kv_write sample_pool zero_arenas sample_table 1 15 (λ i. 0x3f800000) (λ i. 0x40000000))

sample_writes :
    kv_write sample_pool zero_arenas sample_table 1 15 (λ i. 0x3f800000) (λ i. 0x40000000)
    ≡ some sample_written
unfolding kv_write
sample_writes = refl

kv_write-own_example :
    (1 < sample_pool.total_blocks)
    × (1 < sample_pool.layers)
    × (15 < sample_table.num_tokens)
    × (sample_written.key_data (slot_index sample_pool first_slot) ≡ float_to_half 0x3f800000)
    × (sample_written.val_data (slot_index sample_pool first_slot) ≡ float_to_half 0x40000000)
kv_write-own_example =
    kv_write-own sample_pool zero_arenas sample_table 1 15 (λ i. 0x3f800000) (λ i. 0x40000000) 1 0 1
      refl sample_writes (omega arith) (omega arith)

kv_write-other_example :
    let s : Slot = record first_slot { layer = 0 } in
    (sample_written.key_data (slot_index sample_pool s) ≡ 0)
    × (sample_written.val_data (slot_index sample_pool s) ≡ 0)
kv_write-other_example =
    kv_write-other sample_pool zero_arenas sample_table 1 15 (λ i. 0x3f800000) (λ i. 0x40000000) 1
      (record first_slot { layer = 0 }) refl sample_writes
      (record {
        layer_lt = omega arith;
        kh_lt = omega arith;
        offset_lt = omega arith;
        j_lt = omega arith;
      })
      (inr (inl (λ e. omega (arith, e))))

-- Whole numbers in place of floats.
abbrev whole_numbers : Floats
whole_numbers = record {
  F = ℕ;
  D = ℕ;
  of_bits = λ b. b / 2 ^ 23;
  add = λ a b. a + b;
  sub = λ a b. a - b;
  mul = λ a b. a * b;
  gt = λ a b. ltb b a;
  expf = λ a. a + 1;
  inv_sqrt = λ n. n;
  of_float = λ a. a;
  add_double = λ a b. a + b;
  positive = λ a. ltb 0 a;
  zero_double = 0;
  one_double = 1;
  inverse = λ a. 100 / a;
}

gather_head-attention_head_example :
    gather_head whole_numbers sample_pool sample_written sample_table 1 0
      (λ j. 1)
      (λ i. 7)
      (λ i. 8)
      (λ j. 9)
      1
    ≡ attention_head whole_numbers sample_pool sample_written sample_table 1 0 (λ j. 1) (λ j. 9) 1
gather_head-attention_head_example =
    gather_head-attention_head whole_numbers sample_pool sample_written sample_table 1 0 (λ j. 1)
      (λ j. 9) (λ i. 7) (λ i. 8) 1
