-- ===== src/Tier/Tests.antt =====
-- Four experts of which two are in the store, and the theorems at them.
use qwanto.Base.{ℕ, zero, suc, ◌+◌, ◌/◌, ◌≤◌, ◌<◌, ◌≡◌, refl, arith, some, List, [], ◌∷◌, get_or}
use mathlib.Core.List.{Memᴰ}
use mathlib.Core.List.Memᴰ.{head, tail}
use qwanto.Tier.{Score, coldest, is_pinned, resident, hottest, Swap, pick_swap}
use qwanto.Tier.Choice.{pick_swap-best}

-- Expert 2 is hot and not in the store; experts 0 and 1 are, and the other is lukewarm.
abbrev sample_heat : Score
sample_heat e = get_or (10 ∷ 30 ∷ 100 ∷ 25 ∷ []) e 0

abbrev sample_pinned : List ℕ
sample_pinned = 1 ∷ 0 ∷ []

abbrev sample_swap : Swap
sample_swap = record { slot = 1; eid = 2; gain = 90 }

sample_picks : pick_swap sample_heat 4 sample_pinned ≡ some sample_swap
unfolding pick_swap coldest hottest resident is_pinned
sample_picks = refl

third_free : ¬ Memᴰ 3 sample_pinned
third_free (head e) = absurd (omega (arith, e))
third_free (tail (head e)) = absurd (omega (arith, e))
third_free (tail (tail m)) = elim m [ ]

pick_swap-best_example :
    (1 < 2) × (10 ≤ 30) × (2 < 4) × (¬ Memᴰ 2 sample_pinned) × (25 ≤ 100) × (10 + 10 / 4 + 4 < 100)
pick_swap-best_example =
    pick_swap-best sample_heat 4 sample_pinned 0 3 (omega arith) sample_picks (omega arith)
      (omega arith) (omega arith) third_free

-- Once 100 and 30 are in the store, a fourth expert at 60 is picked next.
abbrev next_heat : Score
next_heat e = get_or (10 ∷ 30 ∷ 100 ∷ 60 ∷ []) e 0

next_heat_low : (e : ℕ) → next_heat e < 128
next_heat_low zero = omega arith
next_heat_low (suc zero) = omega arith
next_heat_low (suc (suc zero)) = omega arith
next_heat_low (suc (suc (suc zero))) = omega arith
next_heat_low (suc (suc (suc (suc e)))) = omega arith
