-- ===== src/Tokenizer/Pieces.antt =====
-- `bpe_piece` of c/tok.h.
use qwanto.Base.{
  ℕ, zero, suc, ◌+◌, Option, none, some, List, [], ◌∷◌, ◌++◌, length, map, ltb, if◌then◌else◌,
}
use qwanto.Tokenizer.{Tok, chars, spelled}

-- The best rank and its place, after a pair at `i` whose rank is looked up.
unfoldable pub better : Option ℕ → Option (ℕ × ℕ) → ℕ → Option (ℕ × ℕ)
better none best i = best
better (some rk) none i = some (rk, i)
better (some rk) (some b) i = if ltb rk b.0 then some (rk, i) else some b

-- The loop for the best pair, of which the left symbol stands at the number `i`.
unfoldable pub best_pair : (List ℕ → Option ℕ) → Option (ℕ × ℕ) → ℕ → List (List ℕ) → Option (ℕ × ℕ)
best_pair rank best i [] = best
best_pair rank best i (x ∷ []) = best
best_pair rank best i (x ∷ y ∷ xs) =
    best_pair rank (better (rank (x ++ (0 ∷ y))) best i) (i + 1) (y ∷ xs)

-- The symbols at `i` and behind it become one.
unfoldable pub merge_at : ℕ → List (List ℕ) → List (List ℕ)
merge_at zero (x ∷ y ∷ xs) = (x ++ y) ∷ xs
merge_at (suc i) (x ∷ xs) = x ∷ merge_at i xs
merge_at i xs = xs

-- The loop of merges; each turn makes one symbol less.
unfoldable pub merged : (List ℕ → Option ℕ) → ℕ → List (List ℕ) → List (List ℕ)
merged rank zero xs = xs
merged rank (suc n) xs = elim (best_pair rank none 0 xs) [
  | none ↦ xs
  | some b ↦ merged rank n (merge_at b.1 xs)
]

-- The symbols that are tokens.
unfoldable pub ids_of : (List ℕ → Option ℕ) → List (List ℕ) → List ℕ
ids_of vocab [] = []
ids_of vocab (x ∷ xs) = elim (vocab x) [ none ↦ ids_of vocab xs | some id ↦ id ∷ ids_of vocab xs ]

-- `bpe_piece`
unfoldable pub bpe_piece : Tok → List ℕ → List ℕ
bpe_piece T p =
    let s = spelled p in
    elim (T.vocab s) [
      | some whole ↦ whole ∷ []
      | none ↦
          let symbols = map (λ x. x.1) (chars (length s) s) in
          ids_of T.vocab (merged T.merges (length symbols) symbols)
    ]
