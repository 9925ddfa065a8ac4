-- ===== src/PagedKv/Arena/Write.antt =====
-- What `qwn_paged_kv_write` stores, and what it leaves alone.
use qwanto.Base.{
  ℕ, zero, suc, ◌+◌, ◌-◌, ◌*◌, ◌/◌, ◌%◌, ◌≤◌, ◌<◌, ◌≡◌, ◌≢◌, ◌⊎◌, refl, sym, ap, subst, ◌∙◌, arith,
  some, ltb, leb, ◌==◌, ◌&&◌, if◌then◌else◌, get_elem?, inl, inr, Bool-cases,
}
use qwanto.PagedKv.Pool.{block_size, Pool, BlockTable}
use qwanto.PagedKv.Half.{float_to_half}
use qwanto.PagedKv.Arena.{Array, Arenas, head_offset, store, store_head, store_heads, kv_write}
use qwanto.PagedKv.Arena.Slots.{Slot, InPool, slot_index, slot_index-injective}

store_head_lem :
    (n j dst src : ℕ) (from a : Array) (x : ℕ)
    → store_head n j dst src from a x ≡ (
        if leb (dst + j) x && ltb x (dst + j + n)
        then float_to_half (from (src + (x - dst)))
        else a x)
unfolding store_head
store_head_lem zero j dst src from a x = ground arith
store_head_lem (suc n) j dst src from a x = ground (
  arith,
  store_head_lem n (j + 1) dst src from (store a (dst + j) (float_to_half (from (src + j)))) x,
  ap (λ i. float_to_half (from (src + i))),
)

store_head_own :
    (n dst src j : ℕ) (from a : Array)
    → j < n
    → store_head n 0 dst src from a (dst + j) ≡ float_to_half (from (src + j))
store_head_own n dst src j from a lt =
    ground
      (arith, store_head_lem n 0 dst src from a (dst + j), ap (λ i. float_to_half (from (src + i))))

module _ (pool : Pool) (phys_block layer offset : ℕ) (layer_lt : layer < pool.layers)
    (offset_lt : offset < block_size) (from : Array) where
  -- The slot is not written by the heads from `kh` on.
  abbrev Apart : Slot → ℕ → Type 0
  Apart s kh = (s.phys_block ≢ phys_block) ⊎ (s.layer ≢ layer) ⊎ (s.offset ≢ offset) ⊎ (s.kh < kh)

  Apart-suc : (s : Slot) (kh : ℕ) → Apart s kh → Apart s (kh + 1)
  Apart-suc s kh o = ground arith

  store_head-other :
      (kh : ℕ) (s : Slot) (a : Array)
      → kh < pool.kv_heads
      → InPool pool s
      → (s.kh ≡ kh → (s.phys_block ≢ phys_block) ⊎ (s.layer ≢ layer) ⊎ (s.offset ≢ offset))
      → store_head pool.head_dim 0
          (head_offset pool phys_block layer kh offset)
          (kh * pool.head_dim)
          from
          a
          (slot_index pool s)
        ≡ a (slot_index pool s)
  store_head-other kh s a lt v o =
      ground (arith, store_head_lem pool.head_dim 0 dst (kh * pool.head_dim) from a x, missed)
    where
      dst : ℕ
      dst = head_offset pool phys_block layer kh offset

      x : ℕ
      x = slot_index pool s

      -- A slot in the head's run is at its block, layer, head and token.
      missed : dst ≤ x → x < dst + pool.head_dim → ⊥
      missed le below =
          let here : Slot = record {
            phys_block = phys_block;
            layer = layer;
            kh = kh;
            offset = offset;
            j = x - dst;
          } in
          let same =
            slot_index-injective pool s here v
              (record {
                layer_lt = layer_lt;
                kh_lt = lt;
                offset_lt = offset_lt;
                j_lt = omega arith;
              })
              (omega arith) in
          ground (arith, same, o)

  store_heads-other :
      (n kh : ℕ) (s : Slot) (a : Array)
      → kh + n ≤ pool.kv_heads
      → InPool pool s
      → Apart s kh
      → store_heads pool phys_block layer offset n kh from a (slot_index pool s)
        ≡ a (slot_index pool s)
  unfolding store_heads
  store_heads-other zero kh s a le v o = refl
  store_heads-other (suc n) kh s a le v o =
      store_heads-other n (kh + 1) s _ (omega arith) v (Apart-suc s kh o)
      ∙ store_head-other kh s a (omega arith) v (λ e. ground (arith, o, e))

  store_heads-own :
      (n kh kh' j : ℕ) (a : Array)
      → kh + n ≤ pool.kv_heads
      → kh ≤ kh'
      → kh' < kh + n
      → j < pool.head_dim
      → store_heads pool phys_block layer offset n kh from a
          (head_offset pool phys_block layer kh' offset + j)
        ≡ float_to_half (from (kh' * pool.head_dim + j))
  unfolding store_heads
  store_heads-own zero kh kh' j a le low high lt = absurd (omega arith)
  store_heads-own (suc n) kh kh' j a le low high lt = elim (Bool-cases (kh == kh')) [
    | inl here ↦
        let s : Slot = record {
          phys_block = phys_block;
          layer = layer;
          kh = kh';
          offset = offset;
          j = j;
        } in
        store_heads-other n (kh + 1) s _ (omega arith)
          (record { layer_lt = layer_lt; kh_lt = omega arith; offset_lt = offset_lt; j_lt = lt })
          (inr (inr (inr (ground arith))))
        ∙ subst
            (λ h.
              store_head pool.head_dim 0 (head_offset pool phys_block layer h offset)
                (h * pool.head_dim) from a (head_offset pool phys_block layer kh' offset + j)
              ≡ float_to_half (from (kh' * pool.head_dim + j)))
            (ground arith)
            (store_head_own pool.head_dim (head_offset pool phys_block layer kh' offset)
              (kh' * pool.head_dim) j from a lt)
    | inr above ↦ store_heads-own n (kh + 1) kh' j _ (omega arith) (ground arith) (omega arith) lt
  ]

-- Where a write succeeds, and what it leaves.
kv_write-eq-some :
    (pool : Pool) (arenas : Arenas) (bt : BlockTable) (layer token_pos : ℕ) (k v : Array)
    (phys_block : ℕ) {after : Arenas}
    → get_elem? bt.block_ids (token_pos / block_size) ≡ some phys_block
    → kv_write pool arenas bt layer token_pos k v ≡ some after
    → (phys_block < pool.total_blocks)
      × (layer < pool.layers)
      × (token_pos < bt.num_tokens)
      × (record {
        key_data =
            store_heads pool phys_block layer
              (token_pos % block_size)
              pool.kv_heads
              0
              k
              arenas.key_data;
        val_data =
            store_heads pool phys_block layer
              (token_pos % block_size)
              pool.kv_heads
              0
              v
              arenas.val_data;
      }
          ≡ after)
unfolding kv_write
kv_write-eq-some pool arenas bt layer token_pos k v phys_block there e = ground arith

-- A write that succeeds is one of a token of the table, at a layer and in a block of the pool, and it stores
-- the halves of the keys and of the values of every head, each number at the slot of its block, layer,
-- head, token and position.
pub kv_write-own :
    (pool : Pool) (arenas : Arenas) (bt : BlockTable) (layer token_pos : ℕ) (k v : Array)
    (phys_block kh j : ℕ) {after : Arenas}
    → get_elem? bt.block_ids (token_pos / block_size) ≡ some phys_block
    → kv_write pool arenas bt layer token_pos k v ≡ some after
    → kh < pool.kv_heads
    → j < pool.head_dim
    → let i = head_offset pool phys_block layer kh (token_pos % block_size) + j in
      (phys_block < pool.total_blocks)
      × (layer < pool.layers)
      × (token_pos < bt.num_tokens)
      × (after.key_data i ≡ float_to_half (k (kh * pool.head_dim + j)))
      × (after.val_data i ≡ float_to_half (v (kh * pool.head_dim + j)))
kv_write-own pool arenas bt layer token_pos k v phys_block kh j {after} there e lt below =
    let (in_pool, in_layers, in_table, made) =
      kv_write-eq-some pool arenas bt layer token_pos k v phys_block there e in
    let own : (from a : Array) → _ = λ from a.
      store_heads-own pool phys_block layer (token_pos % block_size) in_layers (omega arith) from
        pool.kv_heads 0 kh j a (omega arith) (omega arith) (omega arith) below in
    let i = head_offset pool phys_block layer kh (token_pos % block_size) + j in
    (
      in_pool,
      in_layers,
      in_table,
      ap (λ (r : Arenas). r.key_data i) (sym made) ∙ own k arenas.key_data,
      ap (λ (r : Arenas). r.val_data i) (sym made) ∙ own v arenas.val_data,
    )

-- A write that succeeds changes neither arena at a slot of another block, another layer, or another token
-- of the block.
pub kv_write-other :
    (pool : Pool) (arenas : Arenas) (bt : BlockTable) (layer token_pos : ℕ) (k v : Array)
    (phys_block : ℕ) (s : Slot) {after : Arenas}
    → get_elem? bt.block_ids (token_pos / block_size) ≡ some phys_block
    → kv_write pool arenas bt layer token_pos k v ≡ some after
    → InPool pool s
    → (s.phys_block ≢ phys_block) ⊎ (s.layer ≢ layer) ⊎ (s.offset ≢ token_pos % block_size)
    → (after.key_data (slot_index pool s) ≡ arenas.key_data (slot_index pool s))
      × (after.val_data (slot_index pool s) ≡ arenas.val_data (slot_index pool s))
kv_write-other pool arenas bt layer token_pos k v phys_block s {after} there e inside other =
    let (in_pool, in_layers, in_table, made) =
      kv_write-eq-some pool arenas bt layer token_pos k v phys_block there e in
    let same : (from a : Array) → _ = λ from a.
      store_heads-other pool phys_block layer (token_pos % block_size) in_layers (omega arith) from
        pool.kv_heads 0 s a (omega arith) inside (ground (arith, other)) in
    let i = slot_index pool s in
    (
      ap (λ (r : Arenas). r.key_data i) (sym made) ∙ same k arenas.key_data,
      ap (λ (r : Arenas). r.val_data i) (sym made) ∙ same v arenas.val_data,
    )
