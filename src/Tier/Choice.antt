-- ===== src/Tier/Choice.antt =====
-- What `tier_pick_swap` picks.
use qwanto.Base.{
  ℕ, ◌+◌, ◌-◌, ◌*◌, ◌/◌, ◌%◌, ◌^◌, ◌≤◌, ◌<◌, ◌≡◌, ◌≢◌, ◌↔◌, [], ◌∷◌, sym, ◌∙◌, true, ==_iff,
  true_ne_false, ap, arith, false, none, some, List, length, get_or, set, ◌==◌, if◌then◌else◌, inl,
  inr, Bool-cases, length-set, get_or-set, none_ne_some,
}
use mathlib.Core.List.{Memᴰ}
use mathlib.Core.List.Memᴰ.{head, tail}
use qwanto.Tier.{Score, coldest, is_pinned, resident, hottest, Swap, margin, pick_swap}
use qwanto.Tier.Extremes.{coldest-lt, coldest-le_all, hottest-IsBest, hottest-ge_free}

-- What a choice comes from.
pick_swap-eq-some :
    (heat : Score) (nexpert : ℕ) (pinned : List ℕ) {swap : Swap}
    → pick_swap heat nexpert pinned ≡ some swap
    → let best = hottest heat pinned nexpert 0 none 0 in
      (0 < length pinned)
      × (swap.slot ≡ coldest heat pinned (length pinned - 1) 1 0)
      × (best.0 ≡ some swap.eid)
      × (margin (heat (get_or pinned swap.slot 0)) < best.1)
      × (swap.gain ≡ (best.1 + (2 ^ 64 - heat (get_or pinned swap.slot 0))) % 2 ^ 64)
unfolding pick_swap
pick_swap-eq-some heat nexpert pinned e = ground arith

-- The slot of a choice, and its margin.
pick_swap-over :
    (heat : Score) (nexpert : ℕ) (pinned : List ℕ) {swap : Swap}
    → pick_swap heat nexpert pinned ≡ some swap
    → (swap.slot < length pinned) × (margin (heat (get_or pinned swap.slot 0)) < heat swap.eid)
pick_swap-over heat nexpert pinned e =
    let (some_pin, at, there, over, gain) = pick_swap-eq-some heat nexpert pinned e in
    let best = hottest-IsBest heat pinned nexpert 0 0 none (λ h q. absurd (none_ne_some q)) there in
    (
      omega (arith, at, coldest-lt heat pinned (length pinned - 1) 1 0 (omega arith)),
      omega (arith, best.2, over),
    )

pick_swap-coldest :
    (heat : Score) (nexpert : ℕ) (pinned : List ℕ) (z : ℕ) {swap : Swap}
    → pick_swap heat nexpert pinned ≡ some swap
    → z < length pinned
    → heat (get_or pinned swap.slot 0) ≤ heat (get_or pinned z 0)
pick_swap-coldest heat nexpert pinned z e h =
    let cold = ap (λ s. heat (get_or pinned s 0)) (pick_swap-eq-some heat nexpert pinned e).1 in
    omega (arith, cold, coldest-le_all heat pinned z h)

swapped_warmer :
    (heat : Score) (pinned : List ℕ) (slot eid z : ℕ)
    → slot < length pinned
    → heat (get_or pinned slot 0) ≤ heat (get_or pinned z 0)
    → heat (get_or pinned slot 0) ≤ heat eid
    → heat (get_or pinned slot 0) ≤ heat (get_or (set pinned slot eid) z 0)
swapped_warmer heat pinned slot eid z h k l =
    let there : get_or (set pinned slot eid) z 0 ≡ (if z == slot then eid else get_or pinned z 0) =
      get_or-set pinned slot z eid 0 h in
    elim (Bool-cases (z == slot)) [
      | inl here ↦ omega (arith, l, ap heat (rw here at there))
      | inr other ↦ omega (arith, k, ap heat (rw other at there))
    ]

is_pinned_iff : (pinned : List ℕ) (e : ℕ) → e < 512 → (is_pinned pinned e ≡ true) ↔ Memᴰ e pinned
unfolding is_pinned
is_pinned_iff [] e small = (λ h. absurd (true_ne_false (sym h)), λ m. elim m [ ])
is_pinned_iff (p ∷ ps) e small = elim (Bool-cases (p == e)) [
  | inl same ↦ let is : p ≡ e = (==_iff p e).0 same in (λ h. head (sym is), λ m. ground arith)
  | inr other ↦
      let (f, g) = is_pinned_iff ps e small in
      let rest : is_pinned (p ∷ ps) e ≡ is_pinned ps e = ground arith in
      (
        λ h. tail (f (sym rest ∙ h)),
        λ m. rest ∙ g (elim m [ head q ↦ absurd (ground (arith, q, other)) | tail m' ↦ m' ]),
      )
]

-- Of the first 512 experts, those that count as resident are those of the store.
resident_iff : (pinned : List ℕ) (e : ℕ) → e < 512 → (resident pinned e ≡ false) ↔ ¬ Memᴰ e pinned
unfolding resident
resident_iff pinned e small =
    let (f, g) = is_pinned_iff pinned e small in
    let low : resident pinned e ≡ is_pinned pinned e = ground arith in
    (
      λ h m. absurd (true_ne_false (sym (g m) ∙ sym low ∙ h)),
      λ free. elim (Bool-cases (is_pinned pinned e)) [
        | inl there ↦ absurd (free (f there))
        | inr gone ↦ low ∙ gone
      ],
    )

-- With at most 512 experts and a heat in the chosen slot that is below 3 * 2^30, a choice of `tier_pick_swap`:
-- its slot is one of the store's, and no expert of the store is colder than the one there; its expert is one
-- of the model's and not in the store, and no other such expert `i` is hotter; and it is hotter than the
-- replaced one by more than a quarter of that heat and 4.
pub pick_swap-best :
    (heat : Score) (nexpert : ℕ) (pinned : List ℕ) (z i : ℕ) {swap : Swap}
    → nexpert ≤ 512
    → pick_swap heat nexpert pinned ≡ some swap
    → heat (get_or pinned swap.slot 0) < 3 * 2 ^ 30
    → z < length pinned
    → i < nexpert
    → ¬ Memᴰ i pinned
    → (swap.slot < length pinned)
      × (heat (get_or pinned swap.slot 0) ≤ heat (get_or pinned z 0))
      × (swap.eid < nexpert)
      × (¬ Memᴰ swap.eid pinned)
      × (heat i ≤ heat swap.eid)
      × (heat (get_or pinned swap.slot 0) + heat (get_or pinned swap.slot 0) / 4 + 4
          < heat swap.eid)
pick_swap-best heat nexpert pinned z i {swap} few e low hz hi free =
    let (some_pin, at, there, over, gain) = pick_swap-eq-some heat nexpert pinned e in
    let best = hottest-IsBest heat pinned nexpert 0 0 none (λ h q. absurd (none_ne_some q)) there in
    let slot = pick_swap-over heat nexpert pinned e in
    let chosen : swap.eid < nexpert = omega (arith, best.1) in
    (
      slot.0,
      pick_swap-coldest heat nexpert pinned z e hz,
      chosen,
      (resident_iff pinned swap.eid (omega arith)).0 best.0,
      omega (
        arith,
        best.2,
        hottest-ge_free heat pinned nexpert 0 0 none i (omega arith) (omega arith)
            ((resident_iff pinned i (omega arith)).1 free),
      ),
      omega (arith, slot.1, low),
    )

-- With heats low enough for the margin not to wrap, the gain is the exact difference of the two heats, and
-- it is more than a quarter of the lower one and 4.
pick_swap-gain :
    (heat : Score) (nexpert : ℕ) (pinned : List ℕ) {swap : Swap}
    → pick_swap heat nexpert pinned ≡ some swap
    → heat (get_or pinned swap.slot 0) < 3 * 2 ^ 30
    → heat swap.eid < 2 ^ 32
    → (heat swap.eid ≡ heat (get_or pinned swap.slot 0) + swap.gain)
      × (heat (get_or pinned swap.slot 0) / 4 + 4 < swap.gain)
pick_swap-gain heat nexpert pinned {swap} e low fits =
    let (some_pin, at, there, over, gain) = pick_swap-eq-some heat nexpert pinned e in
    let best = hottest-IsBest heat pinned nexpert 0 0 none (λ h q. absurd (none_ne_some q)) there in
    (omega (arith, best.2, over, gain), omega (arith, best.2, over, gain))

-- With heats low enough for the margin not to wrap, an expert that a swap has evicted is not what the next
-- call picks, while the heats stay as they are.
pub pick_swap-no_return :
    (heat : Score) (nexpert : ℕ) (pinned : List ℕ) {swap next : Swap}
    → ((e : ℕ) → heat e < 3 * 2 ^ 30)
    → pick_swap heat nexpert pinned ≡ some swap
    → pick_swap heat nexpert (set pinned swap.slot swap.eid) ≡ some next
    → next.eid ≢ get_or pinned swap.slot 0
pick_swap-no_return heat nexpert pinned {swap} {next} low e e' returned =
    let first = pick_swap-over heat nexpert pinned e in
    let second = pick_swap-over heat nexpert (set pinned swap.slot swap.eid) e' in
    let in_store : next.slot < length pinned =
      omega (arith, second.0, length-set pinned swap.slot swap.eid) in
    let warmer =
      swapped_warmer heat pinned swap.slot swap.eid next.slot first.0
        (pick_swap-coldest heat nexpert pinned next.slot e in_store)
        (omega (arith, first.1, low (get_or pinned swap.slot 0))) in
    omega (
      arith,
      second.1,
      warmer,
      ap heat returned,
      low (get_or (set pinned swap.slot swap.eid) next.slot 0),
    )
