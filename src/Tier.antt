-- ===== src/Tier.antt =====
-- The hot store of experts of c/tier.h: which resident expert to replace by which.
pub mod Extremes
pub mod Choice
pub mod Lfru
mod Tests
use qwanto.Base.{
  ℕ, zero, suc, ◌+◌, ◌-◌, ◌*◌, ◌/◌, ◌%◌, ◌^◌, Bool, true, false, ◌||◌, ◌&&◌, not, Option, none,
  some, List, [], ◌∷◌, map, length, get_or, ltb, leb, ◌==◌, if◌then◌else◌, u64,
}

-- The score of each expert.
abbrev pub Score : Type 0
Score = ℕ → ℕ

-- `for (z = 1; z < npin; z++) if (score[pinned[z]] < score[pinned[cold]]) cold = z`, with `n` rounds left.
unfoldable pub coldest : Score → List ℕ → ℕ → ℕ → ℕ → ℕ
coldest score pinned zero z cold = cold
coldest score pinned (suc n) z cold =
    coldest score pinned n (z + 1)
      (if ltb (score (get_or pinned z 0)) (score (get_or pinned cold 0)) then z else cold)

-- `is_pinned`, which has room for 512 experts.
unfoldable pub is_pinned : List ℕ → ℕ → Bool
is_pinned [] e = false
is_pinned (p ∷ ps) e = let rest = is_pinned ps e in if ltb p 512 && p == e then true else rest

unfoldable pub resident : List ℕ → ℕ → Bool
resident pinned e = if ltb e 512 then is_pinned pinned e else false

-- The loop of `tier_pick_swap` over the experts, with `n` left from `e`; `none` is `hot == -1`.
unfoldable pub hottest : Score → List ℕ → ℕ → ℕ → Option ℕ → ℕ → Option ℕ × ℕ
hottest heat pinned zero e hot fh = (hot, fh)
hottest heat pinned (suc n) e hot fh =
    let better = not (resident pinned e) && ltb fh (heat e) in
    hottest heat pinned n (e + 1) (if better then some e else hot) (if better then heat e else fh)

-- A choice: the slot, the expert that goes there, and the gain, as the bits of a 64-bit long.
pub record Swap : Type 0 where
  pub slot : ℕ
  pub eid : ℕ
  pub gain : ℕ

-- `fc + (fc >> 2) + 4` in uint32_t.
abbrev pub margin : ℕ → ℕ
margin fc = (fc + fc / 4 + 4) % 2 ^ 32

-- `tier_pick_swap`; `none` is 0.
unfoldable pub pick_swap : Score → ℕ → List ℕ → Option Swap
pick_swap heat nexpert pinned =
    let cold = coldest heat pinned (length pinned - 1) 1 0 in
    let fc = heat (get_or pinned cold 0) in
    let best = hottest heat pinned nexpert 0 none 0 in
    if ltb (length pinned) 1 || ltb nexpert 1 then none else elim best.0 [
      | none ↦ none
      | some hot ↦
          if leb best.1 (margin fc)
          then none
          else some (record { slot = cold; eid = hot; gain = u64 (best.1 + (2 ^ 64 - fc)) })
    ]

-- `tier_lfru_score`, with the age in uint32_t; `|` of disjoint bits is a sum.
unfoldable pub lfru_score : ℕ → ℕ → ℕ → ℕ
lfru_score heat last clock =
    let age = (clock + (2 ^ 32 - last)) % 2 ^ 32 in
    heat * 2 ^ 8 + (if ltb age 255 then 255 - age else 0)

-- The loop of `tier_pick_lfru` over the experts, which takes the first one whatever its score.
unfoldable pub hottest_lfru : Score → List ℕ → ℕ → ℕ → Option ℕ → ℕ → Option ℕ × ℕ
hottest_lfru score pinned zero e hot hs = (hot, hs)
hottest_lfru score pinned (suc n) e hot hs =
    let first : Bool = elim hot [ none ↦ true | some h ↦ false ] in
    let better = not (resident pinned e) && (first || ltb hs (score e)) in
    hottest_lfru score pinned n (e + 1) (if better then some e else hot)
      (if better then score e else hs)

-- `tier_pick_lfru`; `none` is 0.
unfoldable pub pick_lfru : (ℕ → ℕ) → (ℕ → ℕ) → ℕ → ℕ → List ℕ → Option Swap
pick_lfru heat last clock nexpert pinned =
    let score : Score = λ e. lfru_score (heat e) (last e) clock in
    let cold = coldest score pinned (length pinned - 1) 1 0 in
    let cs = score (get_or pinned cold 0) in
    let best = hottest_lfru score pinned nexpert 0 none 0 in
    if ltb (length pinned) 1 || ltb nexpert 1 then none else elim best.0 [
      | none ↦ none
      | some hot ↦
          if leb best.1 (cs + cs / 4 + 4 * 2 ^ 8)
          then none
          else some (record { slot = cold; eid = hot; gain = (best.1 - cs) / 2 ^ 8 })
    ]

-- `tier_decay`
unfoldable decay : List ℕ → List ℕ
decay [] = []
decay (h ∷ hs) = h / 2 ∷ decay hs
