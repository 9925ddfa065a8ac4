-- ===== src/Tier/Lfru.antt =====
-- The order of the scores of `tier_lfru_score`, and the choices made by it.
use qwanto.Base.{ℕ, ◌+◌, ◌-◌, ◌^◌, ◌≤◌, ◌<◌, ◌≡◌, arith, ap, some, List, length, get_or}
use qwanto.Tier.{Score, coldest, lfru_score, Swap, pick_lfru}
use qwanto.Tier.Extremes.{coldest-lt, coldest-le_all}

-- Frequency comes first: one access more outweighs any difference of recency. At equal frequency the
-- expert that was used at a later tick, no later than now, scores at least as much.
lfru_score_mono :
    (heat heat' last last' clock : ℕ)
    → clock < 2 ^ 32
    → last ≤ last'
    → last' ≤ clock
    → (lfru_score heat last' clock < lfru_score (heat + 1 + heat') last clock)
      × (lfru_score heat last clock ≤ lfru_score heat last' clock)
unfolding lfru_score
lfru_score_mono heat heat' last last' clock now h k = ground arith

pick_lfru_slot :
    (heat last : ℕ → ℕ) (clock nexpert : ℕ) (pinned : List ℕ) {swap : Swap}
    → pick_lfru heat last clock nexpert pinned ≡ some swap
    → swap.slot ≡ coldest (λ e. lfru_score (heat e) (last e) clock) pinned (length pinned - 1) 1 0
unfolding pick_lfru
pick_lfru_slot heat last clock nexpert pinned e = ground arith

-- A choice of `tier_pick_lfru` replaces an expert of the store than which none there scores less.
pick_lfru-coldest :
    (heat last : ℕ → ℕ) (clock nexpert : ℕ) (pinned : List ℕ) (z : ℕ) {swap : Swap}
    → pick_lfru heat last clock nexpert pinned ≡ some swap
    → z < length pinned
    → let score : Score = λ e. lfru_score (heat e) (last e) clock in
      (swap.slot < length pinned) × (score (get_or pinned swap.slot 0) ≤ score (get_or pinned z 0))
pick_lfru-coldest heat last clock nexpert pinned z {swap} e h =
    let score : Score = λ e. lfru_score (heat e) (last e) clock in
    (
      omega (arith, slot, coldest-lt score pinned (length pinned - 1) 1 0 (omega arith)),
      omega (arith, ap (λ s. score (get_or pinned s 0)) slot, coldest-le_all score pinned z h),
    )
  where
    slot :
        swap.slot ≡ coldest (λ e. lfru_score (heat e) (last e) clock) pinned (length pinned - 1) 1 0
    slot = pick_lfru_slot heat last clock nexpert pinned e
