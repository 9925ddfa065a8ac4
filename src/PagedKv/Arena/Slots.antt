-- ===== src/PagedKv/Arena/Slots.antt =====
-- The slots of the arenas: within the arena's size, which does not wrap, and different for different
-- blocks, layers, heads, tokens and positions.
use qwanto.Base.{
  digits_unique, digits_lt, mul_le_of_le_div, u64, ℕ, ◌+◌, ◌*◌, ◌/◌, ◌^◌, ◌≤◌, ◌<◌, ◌≡◌, sym, ◌∙◌,
  arith, Bool, true, false, some, ltb, ◌||◌, u64_max,
}
use native.Mathlib.Nat.{mul_comm}
use qwanto.PagedKv.Pool.{block_size, Pool, pool_init, too_large}
use qwanto.PagedKv.Arena.{block_stride, head_offset}

-- The slot in Horner's form.
abbrev horner : Pool → ℕ → ℕ → ℕ → ℕ → ℕ → ℕ
horner pool phys layer kh offset j =
    (((phys * pool.layers + layer) * pool.kv_heads + kh) * block_size + offset) * pool.head_dim + j

head_offset-horner :
    (pool : Pool) (phys layer kh offset j : ℕ)
    → head_offset pool phys layer kh offset + j ≡ horner pool phys layer kh offset j
head_offset-horner pool phys layer kh offset j = grind arith

-- The place of a number in the arena.
pub record Slot : Type 0 where
  pub phys_block : ℕ
  pub layer : ℕ
  pub kh : ℕ
  pub offset : ℕ
  pub j : ℕ

pub record InPool (pool : Pool) (s : Slot) : Type 0 where
  pub layer_lt : s.layer < pool.layers
  pub kh_lt : s.kh < pool.kv_heads
  pub offset_lt : s.offset < block_size
  pub j_lt : s.j < pool.head_dim

abbrev pub slot_index : Pool → Slot → ℕ
slot_index pool s = head_offset pool s.phys_block s.layer s.kh s.offset + s.j

-- Two slots of a pool with the same index are the same: block, layer, head, token and position.
pub slot_index-injective :
    (pool : Pool) (s t : Slot)
    → InPool pool s
    → InPool pool t
    → slot_index pool s ≡ slot_index pool t
    → (s.phys_block ≡ t.phys_block)
      × (s.layer ≡ t.layer)
      × (s.kh ≡ t.kh)
      × (s.offset ≡ t.offset)
      × (s.j ≡ t.j)
slot_index-injective pool s t a b e =
    let j = digits_unique pool.head_dim _ s.j _ t.j a.j_lt b.j_lt (
      sym (head_offset-horner pool s.phys_block s.layer s.kh s.offset s.j)
      ∙ e
      ∙ head_offset-horner pool t.phys_block t.layer t.kh t.offset t.j) in
    let o = digits_unique block_size _ s.offset _ t.offset a.offset_lt b.offset_lt j.0 in
    let k = digits_unique pool.kv_heads _ s.kh _ t.kh a.kh_lt b.kh_lt o.0 in
    let l =
      digits_unique pool.layers s.phys_block s.layer t.phys_block t.layer a.layer_lt b.layer_lt
        k.0 in
    (l.0, l.1, k.1, o.1, j.1)

-- A slot of one of the pool's blocks lies in the arena, of `total_blocks` times the block's numbers.
pub slot_index-lt :
    (pool : Pool) (s : Slot)
    → s.phys_block < pool.total_blocks
    → InPool pool s
    → slot_index pool s < pool.total_blocks * block_stride pool
slot_index-lt pool s h a =
    let l = digits_lt pool.layers pool.total_blocks s.phys_block s.layer h a.layer_lt in
    let k = digits_lt pool.kv_heads _ _ s.kh l a.kh_lt in
    let o = digits_lt block_size _ _ s.offset k a.offset_lt in
    let j = digits_lt pool.head_dim _ _ s.j o a.j_lt in
    grind (arith, j, head_offset-horner pool s.phys_block s.layer s.kh s.offset s.j)

-- What a size check guards does not wrap.
guarded :
    (a s : ℕ) → 0 < s → ltb (u64_max / s) a ≡ false → (a * s ≤ u64_max) × (u64 (a * s) ≡ a * s)
guarded a s pos h = ground (arith, mul_le_of_le_div a s u64_max)

or_false : (a b : Bool) → (a || b) ≡ false → (a ≡ false) × (b ≡ false)
or_false true b h = cc
or_false false b h = ground arith

-- Where the size checks pass, none of the products has wrapped.
sizes_exact :
    (total_blocks layers kv_heads head_dim : ℕ)
    → 0 < total_blocks
    → 0 < kv_heads
    → 0 < head_dim
    → too_large total_blocks layers kv_heads head_dim ≡ false
    → total_blocks * (layers * kv_heads * block_size * head_dim) * 2 < 2 ^ 64
unfolding too_large
sizes_exact total_blocks layers kv_heads head_dim t k d e =
    let (e4, c4) = or_false _ _ e in
    let (e3, c3) = or_false _ _ e4 in
    let (e2, c2) = or_false _ _ e3 in
    let (e1, c1) = or_false _ _ e2 in
    let (c, c0) = or_false _ _ e1 in
    let heads = guarded layers kv_heads k c in
    let tokens = guarded (layers * kv_heads) block_size (omega arith) (rw heads.1 at c0) in
    let elems =
      guarded (layers * kv_heads * block_size) head_dim d (rw (heads.1, tokens.1) at c1) in
    let total =
      guarded (layers * kv_heads * block_size * head_dim) total_blocks t
        (rw (heads.1, tokens.1, elems.1) at c2) in
    let same = mul_comm total_blocks (layers * kv_heads * block_size * head_dim) in
    ground (arith, (rw (heads.1, tokens.1, elems.1, same, total.1) at c3), same)

-- The size checks of `qwn_kv_pool_init` are enough: the arena of a new pool takes at most 2^64 - 1 bytes.
pool_init-arena :
    (allocates : Bool) (total_blocks layers kv_heads head_dim : ℕ) {pool : Pool}
    → pool_init allocates total_blocks layers kv_heads head_dim ≡ some pool
    → pool.total_blocks * block_stride pool * 2 < 2 ^ 64
unfolding pool_init
pool_init-arena allocates total_blocks layers kv_heads head_dim e =
    ground (arith, sizes_exact total_blocks layers kv_heads head_dim)
