-- ===== src/Tokenizer/Pairs.antt =====
-- The pair that a merge of c/tok.h takes.
use qwanto.Base.{
  ℕ, zero, suc, ◌+◌, ◌≡◌, ◌⊎◌, inl, inr, Option, none, some, List, [], ◌∷◌, ◌++◌, ltb, arith, refl,
  sym, ap, subst, ◌∙◌, Bool-cases,
}
use qwanto.Tokenizer.Pieces.{better, best_pair}

-- The pair at a place has a rank.
unfoldable pub Ranked : (List ℕ → Option ℕ) → ℕ → List (List ℕ) → Type 0
Ranked rank zero (x ∷ y ∷ xs) = (r : ℕ) × (rank (x ++ (0 ∷ y)) ≡ some r)
Ranked rank (suc k) (x ∷ xs) = Ranked rank k xs
Ranked rank k xs = ⊥

Found : (List ℕ → Option ℕ) → Option (ℕ × ℕ) → ℕ → List (List ℕ) → ℕ × ℕ → Type 0
Found rank best i xs b = (best ≡ some b) ⊎ ((k : ℕ) × (b.1 ≡ i + k) × Ranked rank k xs)

better_cases :
    (o : Option ℕ) (best : Option (ℕ × ℕ)) (i : ℕ)
    → (better o best i ≡ best) ⊎ ((rk : ℕ) × (o ≡ some rk) × (better o best i ≡ some (rk, i)))
unfolding better
better_cases none best i = inl refl
better_cases (some rk) none i = inr (rk, refl, refl)
better_cases (some rk) (some b) i = elim (Bool-cases (ltb rk b.0)) [
  | inl e ↦ inr (rk, refl, rw (e) refl)
  | inr e ↦ inl (rw (e) refl)
]

place-some : (rk : ℕ) (b : ℕ × ℕ) (i : ℕ) → some (rk, i) ≡ some b → i ≡ b.1
place-some rk b i e = ap (λ o. elim o [ none ↦ i | some x ↦ x.1 ]) e

-- What the loop finds is what it starts with, or the place of a pair that has a rank.
best_pair-Found :
    (rank : List ℕ → Option ℕ) (best : Option (ℕ × ℕ)) (i : ℕ) (xs : List (List ℕ)) (b : ℕ × ℕ)
    → best_pair rank best i xs ≡ some b
    → Found rank best i xs b
unfolding best_pair Found Ranked
best_pair-Found rank best i [] b h = inl h
best_pair-Found rank best i (x ∷ []) b h = inl h
best_pair-Found rank best i (x ∷ y ∷ xs) b h =
    elim (best_pair-Found rank (better (rank (x ++ (0 ∷ y))) best i) (i + 1) (y ∷ xs) b h) [
      | inr later ↦ inr (suc later.0, omega (arith, later.1), later.2)
      | inl now ↦ elim (better_cases (rank (x ++ (0 ∷ y))) best i) [
        | inl e ↦ inl (sym e ∙ now)
        | inr c ↦ inr (0, omega (arith, place-some _ b i (sym c.2 ∙ now)), (c.0, c.1))
      ]
    ]

pub best_pair-Ranked :
    (rank : List ℕ → Option ℕ) (xs : List (List ℕ)) (b : ℕ × ℕ)
    → best_pair rank none 0 xs ≡ some b
    → Ranked rank b.1 xs
unfolding Found
best_pair-Ranked rank xs b e = elim (best_pair-Found rank none 0 xs b e) [
  | inl n ↦ cc
  | inr h ↦ let at : h.0 ≡ b.1 = omega (arith, h.1) in subst (λ k. Ranked rank k xs) at h.2
]
