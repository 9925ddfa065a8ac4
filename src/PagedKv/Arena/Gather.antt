-- ===== src/PagedKv/Arena/Gather.antt =====
-- The gathered copy of a head's numbers against the arena itself.
use qwanto.Base.{
  ℕ, zero, suc, ◌+◌, ◌-◌, ◌*◌, ◌/◌, ◌%◌, ◌≤◌, ◌<◌, ◌≡◌, refl, ap, subst, ◌∙◌, arith, true, ◌==◌,
  get_or, inl, inr, Bool-cases, digits_lt, List, [], ◌∷◌,
}
use qwanto.PagedKv.Pool.{block_size, Pool, BlockTable}
use qwanto.PagedKv.Arena.Slots.{Slot, slot_index-lt}
use qwanto.PagedKv.Arena.{
  Array, block_stride, head_offset, copy, tokens_in_block, gather, token_offset, valid_block_table,
  ids_valid,
}

copy_hit :
    (n to from : ℕ) (src dst : Array) (d : ℕ)
    → d < n
    → copy n to from src dst (to + d) ≡ src (from + d)
unfolding copy
copy_hit n to from src dst d lt = ground (arith, ap (λ i. src (from + i)))

module _ (pool : Pool) (bt : BlockTable) (layer kh num_blocks : ℕ) (src : Array) where
  -- The blocks from `b` on leave what lies before them.
  gather-before :
      (n b x : ℕ) (scratch : Array)
      → x < b * block_size * pool.head_dim
      → gather pool bt layer kh num_blocks n b src scratch x ≡ scratch x
  unfolding gather copy
  gather-before zero b x scratch lt = refl
  gather-before (suc n) b x scratch lt = gather-before n (b + 1) x _ (grind arith) ∙ ground arith

  gather-here :
      (n q r j : ℕ) (scratch : Array)
      → r < tokens_in_block bt.num_tokens num_blocks q
      → r < block_size
      → j < pool.head_dim
      → gather pool bt layer kh num_blocks
          (suc n)
          q
          src
          scratch
          ((q * block_size + r) * pool.head_dim + j)
        ≡ src (head_offset pool (get_or bt.block_ids q 0) layer kh r + j)
  unfolding gather
  gather-here n q r j scratch within small lt =
      gather-before n (q + 1) x _
        (digits_lt hd ((q + 1) * block_size) (q * block_size + r) j (omega arith) lt)
      ∙ ap (copy count to from src scratch) (grind arith)
      ∙ copy_hit count to from src scratch (r * hd + j) (digits_lt hd _ r j within lt)
      ∙ ap src (grind arith)
    where
      hd : ℕ
      hd = pool.head_dim

      x : ℕ
      x = (q * block_size + r) * hd + j

      count : ℕ
      count = tokens_in_block bt.num_tokens num_blocks q * hd

      to : ℕ
      to = q * block_size * hd

      from : ℕ
      from = head_offset pool (get_or bt.block_ids q 0) layer kh 0

  -- Token `q * block_size + r` after the blocks from `b` on, of which `q` is one.
  gather-token :
      (n b q r j : ℕ) (scratch : Array)
      → b ≤ q
      → q < b + n
      → r < tokens_in_block bt.num_tokens num_blocks q
      → r < block_size
      → j < pool.head_dim
      → gather pool bt layer kh num_blocks n b src scratch
          ((q * block_size + r) * pool.head_dim + j)
        ≡ src (head_offset pool (get_or bt.block_ids q 0) layer kh r + j)
  unfolding gather copy
  gather-token zero b q r j scratch low high within small lt = absurd (omega arith)
  gather-token (suc n) b q r j scratch low high within small lt = elim (Bool-cases (b == q)) [
    | inl here ↦
        subst
          (λ c.
            gather pool bt layer kh num_blocks (suc n) c src scratch
              ((q * block_size + r) * pool.head_dim + j)
            ≡ src (head_offset pool (get_or bt.block_ids q 0) layer kh r + j))
          (ground arith) (gather-here n q r j scratch within small lt)
    | inr above ↦ gather-token n (b + 1) q r j _ (ground arith) (omega arith) within small lt
  ]

-- The loop of `qwn_paged_attention_gather_head` over all blocks of a table puts the numbers of token `t`
-- of a head where its dot product reads them: they are those that `qwn_paged_attention_head` reads in
-- the arena.
pub gather-token_offset :
    (pool : Pool) (bt : BlockTable) (layer kh t j : ℕ) (src scratch : Array)
    → t < bt.num_tokens
    → j < pool.head_dim
    → let num_blocks = (bt.num_tokens + block_size - 1) / block_size in
      gather pool bt layer kh num_blocks num_blocks 0 src scratch (t * pool.head_dim + j)
      ≡ src (token_offset pool bt layer kh t + j)
unfolding token_offset
gather-token_offset pool bt layer kh t j src scratch lt below =
    let num_blocks = (bt.num_tokens + block_size - 1) / block_size in
    ap (λ u. gather pool bt layer kh num_blocks num_blocks 0 src scratch (u * pool.head_dim + j))
      (omega arith)
    ∙ gather-token pool bt layer kh num_blocks src num_blocks 0 (t / block_size) (t % block_size) j
        scratch (omega arith) (omega arith) (ground arith) (omega arith) below

ids_valid_lem :
    (total_blocks n i : ℕ) (ids : List ℕ)
    → ids_valid total_blocks n ids ≡ true
    → i < n
    → get_or ids i 0 < total_blocks
unfolding ids_valid
ids_valid_lem total_blocks zero i ids h lt = absurd (omega arith)
ids_valid_lem total_blocks (suc n) i [] h lt = cc
ids_valid_lem total_blocks (suc n) zero (id ∷ ids) h lt = ground arith
ids_valid_lem total_blocks (suc n) (suc i) (id ∷ ids) h lt =
    ids_valid_lem total_blocks n i ids (ground arith) (omega arith)

valid_block_table-ids :
    (pool : Pool) (bt : BlockTable)
    → valid_block_table pool bt ≡ true
    → ids_valid pool.total_blocks ((bt.num_tokens + block_size - 1) / block_size) bt.block_ids
      ≡ true
unfolding valid_block_table
valid_block_table-ids pool bt h = ground arith

-- Where `valid_block_table` passes, what the attention heads read for a token, at a layer and a head of the
-- pool, lies in the arena.
pub token_offset-lt :
    (pool : Pool) (bt : BlockTable) (layer kh t j : ℕ)
    → valid_block_table pool bt ≡ true
    → t < bt.num_tokens
    → layer < pool.layers
    → kh < pool.kv_heads
    → j < pool.head_dim
    → token_offset pool bt layer kh t + j < pool.total_blocks * block_stride pool
unfolding token_offset
token_offset-lt pool bt layer kh t j h lt in_layers in_heads below =
    slot_index-lt pool s
      (ids_valid_lem pool.total_blocks _ (t / block_size) bt.block_ids
        (valid_block_table-ids pool bt h) (omega arith))
      (record { layer_lt = in_layers; kh_lt = in_heads; offset_lt = omega arith; j_lt = below })
  where
    s : Slot
    s = record {
      phys_block = get_or bt.block_ids (t / block_size) 0;
      layer = layer;
      kh = kh;
      offset = t % block_size;
      j = j;
    }
