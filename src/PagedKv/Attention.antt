-- ===== src/PagedKv/Attention.antt =====
-- The attention of one head over a paged cache, directly and through a gathered copy, of
-- c/qwn_paged_kv.c (the branches without AVX2). Floating-point arithmetic is a parameter.
pub mod Gathered
use qwanto.Base.{
  ℕ, zero, suc, ◌+◌, ◌-◌, ◌*◌, ◌/◌, Bool, true, false, ◌||◌, ◌&&◌, not, List, [], ◌∷◌, map, ltb,
  leb, ◌==◌, if◌then◌else◌,
}
use qwanto.PagedKv.Pool.{block_size, Pool, BlockTable}
use qwanto.PagedKv.Half.{half_to_float}
use qwanto.PagedKv.Arena.{Array, Arenas, gather, token_offset, valid_block_table}

-- The operations of C's float and double that the code uses; `of_bits` is the float of a bit pattern,
-- `inv_sqrt n` is `1.0f / sqrtf((float)n)`, and `inverse d` is `(float)(1.0 / d)`.
pub record Floats : Type 1 where
  pub F : Type 0
  pub D : Type 0
  pub of_bits : ℕ → F
  pub add : F → F → F
  pub sub : F → F → F
  pub mul : F → F → F
  pub gt : F → F → Bool
  pub expf : F → F
  pub inv_sqrt : ℕ → F
  pub of_float : F → D
  pub add_double : D → D → D
  pub positive : D → Bool
  pub zero_double : D
  pub one_double : D
  pub inverse : D → F

module _ (fl : Floats) where
  open fl use {F, D}

  -- `half_to_float(a[i])`
  abbrev half_at : Array → ℕ → F
  half_at a i = fl.of_bits (half_to_float (a i))

  -- `for (; j < HD; j++) dot += q_head[j] * half_to_float(kc[j])`, with `n` rounds left.
  unfoldable pub dot_loop : ℕ → ℕ → (ℕ → F) → (ℕ → F) → F → F
  dot_loop zero j q_head kc dot = dot
  dot_loop (suc n) j q_head kc dot =
      dot_loop n (j + 1) q_head kc (fl.add dot (fl.mul (q_head j) (kc j)))

  -- The scores of the tokens from `t`, `n` of them.
  unfoldable pub scores : ℕ → (ℕ → F) → (ℕ → ℕ → F) → ℕ → ℕ → List F
  scores hd q_head key zero t = []
  scores hd q_head key (suc n) t =
      fl.mul (dot_loop hd 0 q_head (key t) (fl.of_bits 0)) (fl.inv_sqrt hd)
      ∷ scores hd q_head key n (t + 1)

  unfoldable pub max_of : F → List F → F
  max_of m [] = m
  max_of m (x ∷ xs) = if fl.gt x m then max_of x xs else max_of m xs

  unfoldable pub sum_of : D → List F → D
  sum_of s [] = s
  sum_of s (x ∷ xs) = sum_of (fl.add_double s (fl.of_float x)) xs

  -- `softmax_inplace`
  unfoldable pub softmax : List F → List F
  softmax [] = []
  softmax (x ∷ xs) =
      let max_val = max_of x xs in
      let es = map (λ y. fl.expf (fl.sub y max_val)) (x ∷ xs) in
      let sum = sum_of fl.zero_double es in
      let inv = fl.inverse (if fl.positive sum then sum else fl.one_double) in
      map (λ y. fl.mul y inv) es

  -- `for (; j < HD; j++) out[j] += sc * half_to_float(vc[j])` for each token from `t` on.
  unfoldable pub weighted : ℕ → (ℕ → ℕ → F) → List F → ℕ → (ℕ → F) → ℕ → F
  weighted hd val [] t out = out
  weighted hd val (sc ∷ scs) t out =
      weighted hd val scs (t + 1)
        (λ j. if ltb j hd then fl.add (out j) (fl.mul sc (val t j)) else out j)

  -- The three steps, where `key` and `val` read the cache.
  unfoldable pub attend : ℕ → ℕ → (ℕ → F) → (ℕ → ℕ → F) → (ℕ → ℕ → F) → (ℕ → F) → ℕ → F
  attend hd num_tokens q_head key val out =
      weighted hd val (softmax (scores hd q_head key num_tokens 0)) 0
        (λ j. if ltb j hd then fl.of_bits 0 else out j)

  -- The guards that both heads have; the code returns at once when they fail.
  unfoldable pub refuses : Pool → BlockTable → ℕ → ℕ → Bool
  refuses pool bt layer kh =
      not (valid_block_table pool bt)
      || leb pool.layers layer
      || leb pool.kv_heads kh
      || bt.num_tokens == 0

  -- `qwn_paged_attention_head`: what it leaves in `out_ctx_head`.
  unfoldable pub attention_head : Pool → Arenas → BlockTable → ℕ → ℕ → (ℕ → F) → (ℕ → F) → ℕ → F
  attention_head pool arenas bt layer kh q_head out =
      if refuses pool bt layer kh
      then out
      else attend pool.head_dim bt.num_tokens q_head
          (λ t j. half_at arenas.key_data (token_offset pool bt layer kh t + j))
          (λ t j. half_at arenas.val_data (token_offset pool bt layer kh t + j)) out

  -- `qwn_paged_attention_gather_head`, with the two gather buffers.
  unfoldable pub gather_head :
      Pool → Arenas → BlockTable → ℕ → ℕ → (ℕ → F) → Array → Array → (ℕ → F) → ℕ → F
  gather_head pool arenas bt layer kh q_head k_scratch v_scratch out =
      let num_blocks = (bt.num_tokens + block_size - 1) / block_size in
      let ks = gather pool bt layer kh num_blocks num_blocks 0 arenas.key_data k_scratch in
      let vs = gather pool bt layer kh num_blocks num_blocks 0 arenas.val_data v_scratch in
      if refuses pool bt layer kh
      then out
      else attend pool.head_dim bt.num_tokens q_head (λ t j. half_at ks (t * pool.head_dim + j))
          (λ t j. half_at vs (t * pool.head_dim + j)) out
