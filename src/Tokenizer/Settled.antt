-- ===== src/Tokenizer/Settled.antt =====
-- The end of the loop of merges of c/tok.h.
use qwanto.Base.{
  ℕ, zero, suc, ◌+◌, ◌≤◌, ◌≡◌, Option, none, some, List, [], ◌∷◌, ◌++◌, length, arith, refl, ap,
}
use qwanto.Tokenizer.Pieces.{better, best_pair, merge_at, merged}
use qwanto.Tokenizer.Pairs.{Ranked, best_pair-Ranked}

better-none :
    (o : Option ℕ) (best : Option (ℕ × ℕ)) (i : ℕ)
    → better o best i ≡ none
    → (o ≡ none) × (best ≡ none)
unfolding better
better-none none best i e = (refl, e)
better-none (some rk) none i e = cc
better-none (some rk) (some b) i e = ground (arith, e)

-- Where the loop finds no pair, none has a rank.
best_pair-none :
    (rank : List ℕ → Option ℕ) (best : Option (ℕ × ℕ)) (i : ℕ) (xs : List (List ℕ))
    → best_pair rank best i xs ≡ none
    → (best ≡ none) × ((k : ℕ) → ¬ Ranked rank k xs)
unfolding best_pair Ranked
best_pair-none rank best i [] e = (e, λ k. no_pair k)
  where
    no_pair : (k : ℕ) → ¬ Ranked rank k []
    no_pair zero r = r
    no_pair (suc k) r = r
best_pair-none rank best i (x ∷ []) e = (e, λ k. no_pair k)
  where
    no_pair : (k : ℕ) → ¬ Ranked rank k (x ∷ [])
    no_pair zero r = r
    no_pair (suc zero) r = r
    no_pair (suc (suc k)) r = r
best_pair-none rank best i (x ∷ y ∷ xs) e =
    let later = best_pair-none rank (better (rank (x ++ (0 ∷ y))) best i) (i + 1) (y ∷ xs) e in
    let now = better-none (rank (x ++ (0 ∷ y))) best i later.0 in
    (now.1, λ k. no_pair later.1 now.0 k)
  where
    no_pair :
        ((k : ℕ) → ¬ Ranked rank k (y ∷ xs))
        → rank (x ++ (0 ∷ y)) ≡ none
        → (k : ℕ) → ¬ Ranked rank k (x ∷ y ∷ xs)
    no_pair h f zero r = let g = r.1 in cc
    no_pair h f (suc k) r = h k r

Ranked-length :
    (rank : List ℕ → Option ℕ) (k : ℕ) (xs : List (List ℕ))
    → Ranked rank k xs
    → suc (length (merge_at k xs)) ≡ length xs
unfolding Ranked merge_at
Ranked-length rank zero [] r = absurd r
Ranked-length rank zero (x ∷ []) r = absurd r
Ranked-length rank zero (x ∷ y ∷ xs) r = refl
Ranked-length rank (suc k) [] r = absurd r
Ranked-length rank (suc k) (x ∷ xs) r = ap suc (Ranked-length rank k xs r)

merged_settles :
    (rank : List ℕ → Option ℕ) (n : ℕ) (xs : List (List ℕ))
    → length xs ≤ n
    → best_pair rank none 0 (merged rank n xs) ≡ none
unfolding merged best_pair
merged_settles rank zero [] h = refl
merged_settles rank zero (x ∷ xs) h = elim h [ ]
merged_settles rank (suc n) xs h =
    go (λ ys l. merged_settles rank n ys l) (best_pair rank none 0 xs) refl
  where
    go :
        ((ys : List (List ℕ)) → length ys ≤ n → best_pair rank none 0 (merged rank n ys) ≡ none)
        → (o : Option (ℕ × ℕ)) → best_pair rank none 0 xs ≡ o
        → best_pair rank none 0 (elim o [ none ↦ xs | some b ↦ merged rank n (merge_at b.1 xs) ])
          ≡ none
    go rest none e = e
    go rest (some b) e =
        rest (merge_at b.1 xs)
          (omega (arith, h, Ranked-length rank b.1 xs (best_pair-Ranked rank xs b e)))

-- The loop of bpe_piece ends within as many turns as there are symbols: of what it leaves, no two
-- neighbours have a rank.
pub merged-Ranked :
    (rank : List ℕ → Option ℕ) (xs : List (List ℕ)) (k : ℕ)
    → ¬ Ranked rank k (merged rank (length xs) xs)
merged-Ranked rank xs k =
    (best_pair-none rank none 0 _ (merged_settles rank (length xs) xs (omega arith))).1 k
