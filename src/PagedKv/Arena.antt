-- ===== src/PagedKv/Arena.antt =====
-- The two arenas of a block pool and the accesses of c/qwn_paged_kv.c to them (the branches without AVX2).
pub mod Slots
pub mod Write
pub mod Gather
use qwanto.Base.{
  ℕ, zero, suc, ◌+◌, ◌-◌, ◌*◌, ◌/◌, ◌%◌, Bool, true, false, ◌||◌, ◌&&◌, Option, none, some, List,
  [], ◌∷◌, ltb, leb, ◌==◌, if◌then◌else◌, get_elem?, get_or,
}
use qwanto.PagedKv.Pool.{block_size, Pool, BlockTable, block_count}
use qwanto.PagedKv.Half.{float_to_half}

-- A run of memory: the number at each index.
abbrev pub Array : Type 0
Array = ℕ → ℕ

-- `key_data` and `val_data`.
pub record Arenas : Type 0 where
  pub key_data : Array
  pub val_data : Array

abbrev pub block_stride : Pool → ℕ
block_stride pool = pool.layers * pool.kv_heads * block_size * pool.head_dim

abbrev layer_offset : Pool → ℕ → ℕ
layer_offset pool layer = layer * pool.kv_heads * block_size * pool.head_dim

-- `base + kh * QWN_PAGE_BLOCK_SIZE * HD + offset_in_block * HD`, where a head's numbers of a token start.
-- Written without a wrap.
abbrev pub head_offset : Pool → ℕ → ℕ → ℕ → ℕ → ℕ
head_offset pool phys_block layer kh offset =
    phys_block * block_stride pool
    + layer_offset pool layer
    + kh * block_size * pool.head_dim
    + offset * pool.head_dim

abbrev pub store : Array → ℕ → ℕ → Array
store a i v x = if x == i then v else a x

-- `for (; j < HD; j++) dst[j] = float_to_half(src[j])`, with `n` rounds left.
unfoldable pub store_head : ℕ → ℕ → ℕ → ℕ → Array → Array → Array
store_head zero j dst src from a = a
store_head (suc n) j dst src from a =
    store_head n (j + 1) dst src from (store a (dst + j) (float_to_half (from (src + j))))

-- The loop over the heads for one of the two arenas, with `n` heads left from `kh`.
unfoldable pub store_heads : Pool → ℕ → ℕ → ℕ → ℕ → ℕ → Array → Array → Array
store_heads pool phys_block layer offset zero kh from a = a
store_heads pool phys_block layer offset (suc n) kh from a =
    store_heads pool phys_block layer offset n (kh + 1) from (
      store_head pool.head_dim 0 (head_offset pool phys_block layer kh offset) (kh * pool.head_dim)
        from a)

-- `qwn_paged_kv_write`; `none` is -1. A freed table's NULL `block_ids` has no live entry.
unfoldable pub kv_write : Pool → Arenas → BlockTable → ℕ → ℕ → Array → Array → Option Arenas
kv_write pool arenas bt layer token_pos k v =
    if leb pool.layers layer || leb bt.num_tokens token_pos
    then none
    else elim (get_elem? bt.block_ids (token_pos / block_size)) [
      | none ↦ none
      | some phys_block ↦
          let heads = store_heads pool phys_block layer (token_pos % block_size) pool.kv_heads 0 in
          if leb pool.total_blocks phys_block
          then none
          else some
              (record { key_data = heads k arenas.key_data; val_data = heads v arenas.val_data })
    ]

-- The loop of `valid_block_table` over the first `n` ids.
unfoldable pub ids_valid : ℕ → ℕ → List ℕ → Bool
ids_valid total_blocks zero ids = true
ids_valid total_blocks (suc n) [] = false
ids_valid total_blocks (suc n) (id ∷ ids) =
    let rest = ids_valid total_blocks n ids in if leb total_blocks id then false else rest

-- `valid_block_table`
unfoldable pub valid_block_table : Pool → BlockTable → Bool
valid_block_table pool bt =
    let required = (bt.num_tokens + block_size - 1) / block_size in
    if ltb bt.block_capacity (block_count bt)
    then false
    else if ltb (block_count bt) required
    then false
    else ids_valid pool.total_blocks required bt.block_ids

-- `memcpy(dst + to, src + from, n)` in elements.
unfoldable pub copy : ℕ → ℕ → ℕ → Array → Array → Array
copy n to from src dst x = if leb to x && ltb x (to + n) then src (from + (x - to)) else dst x

-- `tokens_in_block`
abbrev pub tokens_in_block : ℕ → ℕ → ℕ → ℕ
tokens_in_block num_tokens num_blocks b =
    if b == num_blocks - 1 then num_tokens - b * block_size else block_size

-- The gather loop of `qwn_paged_attention_gather_head` for one arena, with `n` blocks left from `b`.
unfoldable pub gather : Pool → BlockTable → ℕ → ℕ → ℕ → ℕ → ℕ → Array → Array → Array
gather pool bt layer kh num_blocks zero b src scratch = scratch
gather pool bt layer kh num_blocks (suc n) b src scratch =
    gather pool bt layer kh num_blocks n (b + 1) src (
      copy (tokens_in_block bt.num_tokens num_blocks b * pool.head_dim)
        (b * block_size * pool.head_dim) (head_offset pool (get_or bt.block_ids b 0) layer kh 0) src
        scratch)

-- `base` in `qwn_paged_attention_head`, where the numbers of token `t` start.
unfoldable pub token_offset : Pool → BlockTable → ℕ → ℕ → ℕ → ℕ
token_offset pool bt layer kh t =
    head_offset pool (get_or bt.block_ids (t / block_size) 0) layer kh (t % block_size)
