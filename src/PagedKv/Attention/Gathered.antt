-- ===== src/PagedKv/Attention/Gathered.antt =====
-- The gathered head against the direct one.
use qwanto.Base.{
  ℕ, zero, suc, ◌+◌, ◌<◌, ◌≡◌, refl, ap, ◌∙◌, arith, List, [], ◌∷◌, length, ltb, if◌then◌else◌, inl,
  inr, Bool-cases, map,
}
use qwanto.PagedKv.Pool.{Pool, BlockTable}
use qwanto.PagedKv.Half.{half_to_float}
use qwanto.PagedKv.Arena.{Array, Arenas}
use qwanto.PagedKv.Arena.Gather.{gather-token_offset}
use qwanto.PagedKv.Attention.{
  Floats, dot_loop, scores, softmax, weighted, attend, refuses, attention_head, gather_head,
}

module _ (fl : Floats) where
  open fl use {F}

  dot_loop_cong :
      (n j : ℕ) (q a b : ℕ → F) (dot : F)
      → ((i : ℕ) → i < j + n → a i ≡ b i)
      → dot_loop fl n j q a dot ≡ dot_loop fl n j q b dot
  unfolding dot_loop
  dot_loop_cong zero j q a b dot h = refl
  dot_loop_cong (suc n) j q a b dot h =
      ap (λ x. dot_loop fl n (j + 1) q a (fl.add dot (fl.mul (q j) x))) (h j (omega arith))
      ∙ dot_loop_cong n (j + 1) q a b _ (λ i lt. h i (omega arith))

  length-scores :
      (hd : ℕ) (q : ℕ → F) (key : ℕ → ℕ → F) (n t : ℕ) → length (scores fl hd q key n t) ≡ n
  unfolding scores
  length-scores hd q key zero t = refl
  length-scores hd q key (suc n) t = ap suc (length-scores hd q key n (t + 1))

  length-map : (f : F → F) (xs : List F) → length (map f xs) ≡ length xs
  length-map f [] = refl
  length-map f (x ∷ xs) = ap suc (length-map f xs)

  length-softmax : (xs : List F) → length (softmax fl xs) ≡ length xs
  unfolding softmax
  length-softmax [] = refl
  length-softmax (x ∷ xs) = ap suc (length-map _ (map _ xs) ∙ length-map _ xs)

  scores_cong :
      (hd : ℕ) (q : ℕ → F) (a b : ℕ → ℕ → F) (n t : ℕ)
      → ((u i : ℕ) → u < t + n → i < hd → a u i ≡ b u i)
      → scores fl hd q a n t ≡ scores fl hd q b n t
  unfolding scores
  scores_cong hd q a b zero t h = refl
  scores_cong hd q a b (suc n) t h =
      ap (λ d. fl.mul d (fl.inv_sqrt hd) ∷ scores fl hd q a n (t + 1))
        (dot_loop_cong hd 0 q (a t) (b t) _ (λ i lt. h t i (omega arith) (omega arith)))
      ∙ ap (λ ss. fl.mul (dot_loop fl hd 0 q (b t) (fl.of_bits 0)) (fl.inv_sqrt hd) ∷ ss)
          (scores_cong hd q a b n (t + 1) (λ u i lt below. h u i (omega arith) below))

  weighted_cong :
      (hd : ℕ) (a b : ℕ → ℕ → F) (scs : List F) (t : ℕ) (o p : ℕ → F) (j : ℕ)
      → ((u i : ℕ) → u < t + length scs → i < hd → a u i ≡ b u i)
      → ((i : ℕ) → o i ≡ p i)
      → weighted fl hd a scs t o j ≡ weighted fl hd b scs t p j
  unfolding weighted
  weighted_cong hd a b [] t o p j h k = k j
  weighted_cong hd a b (sc ∷ scs) t o p j h k =
      weighted_cong hd a b scs (t + 1) _ _ j (λ u i lt below. h u i (omega arith) below)
        (λ i. elim (Bool-cases (ltb i hd)) [
          | inl below ↦ rw (below, k i, h t i (omega arith) (ground arith)) refl
          | inr beyond ↦ rw (beyond, k i) refl
        ])

  -- What the three steps compute depends on the cache only at the tokens and positions of the head.
  attend_cong :
      (hd num_tokens : ℕ) (q : ℕ → F) (k k' v v' : ℕ → ℕ → F) (out : ℕ → F) (j : ℕ)
      → ((u i : ℕ) → u < num_tokens → i < hd → k u i ≡ k' u i)
      → ((u i : ℕ) → u < num_tokens → i < hd → v u i ≡ v' u i)
      → attend fl hd num_tokens q k v out j ≡ attend fl hd num_tokens q k' v' out j
  unfolding attend
  attend_cong hd num_tokens q k k' v v' out j hk hv =
      ap
        (λ ss. weighted fl hd v (softmax fl ss) 0 (λ i. if ltb i hd then fl.of_bits 0 else out i) j)
        (scores_cong hd q k k' num_tokens 0 (λ u i lt below. hk u i (omega arith) below))
      ∙ weighted_cong hd v v' (softmax fl (scores fl hd q k' num_tokens 0)) 0 _ _ j
          (λ u i lt below.
            hv u i
              (omega (
                arith,
                length-softmax (scores fl hd q k' num_tokens 0),
                length-scores hd q k' num_tokens 0,
              ))
              below)
          (λ i. refl)

  -- The gathered head computes what the direct head computes, whatever the floating-point operations do
  -- and whatever the gather buffers hold before: the same context vector, or the same refusal.
  pub gather_head-attention_head :
      (pool : Pool) (arenas : Arenas) (bt : BlockTable) (layer kh : ℕ) (q out : ℕ → F)
      (k_scratch v_scratch : Array) (j : ℕ)
      → gather_head fl pool arenas bt layer kh q k_scratch v_scratch out j
        ≡ attention_head fl pool arenas bt layer kh q out j
  unfolding gather_head attention_head
  gather_head-attention_head pool arenas bt layer kh q out k_scratch v_scratch j =
      elim (Bool-cases (refuses fl pool bt layer kh)) [
        | inl no_head ↦ rw no_head refl
        | inr head ↦ rw head (
            attend_cong pool.head_dim bt.num_tokens q _ _ _ _ out j
              (λ u i lt below.
                ap (λ h. fl.of_bits (half_to_float h))
                  (gather-token_offset pool bt layer kh u i arenas.key_data k_scratch lt below))
              (λ u i lt below.
                ap (λ h. fl.of_bits (half_to_float h))
                  (gather-token_offset pool bt layer kh u i arenas.val_data v_scratch lt below)))
      ]
