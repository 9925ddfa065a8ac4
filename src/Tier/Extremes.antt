-- ===== src/Tier/Extremes.antt =====
-- The coldest and the hottest expert that the loops of c/tier.h find.
use qwanto.Base.{
  ℕ, zero, suc, ◌+◌, ◌-◌, ◌≤◌, ◌<◌, ◌≡◌, ap, subst, arith, false, Option, some, List, length,
  get_or, ltb, ◌==◌, ◌&&◌, not, if◌then◌else◌, inl, inr, Bool-cases, some_eq, ltb→lt, ==_iff,
}
use qwanto.Tier.{Score, coldest, resident, hottest}

-- The slot is the current one or one of those that the loop goes over, and no slot is colder than it.
pub coldest-lt :
    (score : Score) (pinned : List ℕ) (n z cold : ℕ)
    → cold < z
    → coldest score pinned n z cold < z + n
unfolding coldest
coldest-lt score pinned zero z cold h = omega arith
coldest-lt score pinned (suc n) z cold h = omega (
  arith,
  coldest-lt score pinned n (z + 1)
      (if ltb (score (get_or pinned z 0)) (score (get_or pinned cold 0)) then z else cold)
      (ground arith),
)

coldest-le_start :
    (score : Score) (pinned : List ℕ) (n z cold : ℕ)
    → score (get_or pinned (coldest score pinned n z cold) 0) ≤ score (get_or pinned cold 0)
unfolding coldest
coldest-le_start score pinned zero z cold = omega arith
coldest-le_start score pinned (suc n) z cold =
    elim (Bool-cases (ltb (score (get_or pinned z 0)) (score (get_or pinned cold 0)))) [
      | inl colder ↦
          rw (colder, coldest)
            (omega (arith, coldest-le_start score pinned n (z + 1) z, ltb→lt _ _ colder))
      | inr kept ↦ rw (kept, coldest) (coldest-le_start score pinned n (z + 1) cold)
    ]

coldest-le :
    (score : Score) (pinned : List ℕ) (n z cold i : ℕ)
    → z ≤ i
    → i < z + n
    → score (get_or pinned (coldest score pinned n z cold) 0) ≤ score (get_or pinned i 0)
unfolding coldest
coldest-le score pinned zero z cold i h k = absurd (omega arith)
coldest-le score pinned (suc n) z cold i h k = elim (Bool-cases (z == i)) [
  | inl here ↦ ground (
    arith,
    colder,
    coldest-le_start score pinned n (z + 1) next,
    ap (λ x. score (get_or pinned x 0)) ((==_iff z i).0 here),
  )
  | inr later ↦ coldest-le score pinned n (z + 1) next i (ground arith) (omega arith)
]
  where
    next : ℕ
    next = if ltb (score (get_or pinned z 0)) (score (get_or pinned cold 0)) then z else cold

    colder : score (get_or pinned next 0) ≤ score (get_or pinned z 0)
    colder = elim (Bool-cases (ltb (score (get_or pinned z 0)) (score (get_or pinned cold 0)))) [
      | inl t ↦ rw t (omega arith)
      | inr t ↦ rw t (ground arith)
    ]

pub coldest-le_all :
    (score : Score) (pinned : List ℕ) (i : ℕ)
    → i < length pinned
    → score (get_or pinned (coldest score pinned (length pinned - 1) 1 0) 0)
      ≤ score (get_or pinned i 0)
coldest-le_all score pinned zero h = coldest-le_start score pinned (length pinned - 1) 1 0
coldest-le_all score pinned (suc i) h =
    coldest-le score pinned (length pinned - 1) 1 0 (suc i) (omega arith) (omega arith)

-- What the loop over the experts keeps: the best so far, and its heat.
abbrev IsBest : Score → List ℕ → ℕ → ℕ → ℕ → Type 0
IsBest heat pinned bound fh hot = (resident pinned hot ≡ false) × (hot < bound) × (heat hot ≡ fh)

IsBest-mono :
    (heat : Score) (pinned : List ℕ) (b c fh hot : ℕ)
    → b ≤ c
    → IsBest heat pinned b fh hot
    → IsBest heat pinned c fh hot
IsBest-mono heat pinned b c fh hot h k = (k.0, omega (arith, k.1), k.2)

pub hottest-IsBest :
    (heat : Score) (pinned : List ℕ) (n e fh : ℕ) (hot : Option ℕ) {best : ℕ}
    → ((h : ℕ) → hot ≡ some h → IsBest heat pinned e fh h)
    → (hottest heat pinned n e hot fh).0 ≡ some best
    → IsBest heat pinned (e + n) (hottest heat pinned n e hot fh).1 best
unfolding hottest
hottest-IsBest heat pinned zero e fh hot {best} h k = ground (arith, h best k)
hottest-IsBest heat pinned (suc n) e fh hot {best} h k =
    elim (Bool-cases (not (resident pinned e) && ltb fh (heat e))) [
      | inl better ↦
          rw (better, hottest)
            (IsBest-mono heat pinned (e + 1 + n) (e + suc n) _ best (omega arith) (
              hottest-IsBest heat pinned n (e + 1) (heat e) (some e)
                (λ x q. subst (IsBest heat pinned (e + 1) (heat e)) (some_eq q) (ground arith))
                (rw (better, hottest) at k)))
      | inr worse ↦
          rw (worse, hottest)
            (IsBest-mono heat pinned (e + 1 + n) (e + suc n) _ best (omega arith) (
              hottest-IsBest heat pinned n (e + 1) fh hot
                (λ x q. IsBest-mono heat pinned e (e + 1) fh x (omega arith) (h x q))
                (rw (worse, hottest) at k)))
    ]

hottest-ge :
    (heat : Score) (pinned : List ℕ) (n e fh : ℕ) (hot : Option ℕ)
    → fh ≤ (hottest heat pinned n e hot fh).1
unfolding hottest
hottest-ge heat pinned zero e fh hot = omega arith
hottest-ge heat pinned (suc n) e fh hot =
    elim (Bool-cases (not (resident pinned e) && ltb fh (heat e))) [
      | inl better ↦
          rw (better, hottest) (ground (arith, hottest-ge heat pinned n (e + 1) (heat e) (some e)))
      | inr worse ↦ rw (worse, hottest) (hottest-ge heat pinned n (e + 1) fh hot)
    ]

pub hottest-ge_free :
    (heat : Score) (pinned : List ℕ) (n e fh : ℕ) (hot : Option ℕ) (i : ℕ)
    → e ≤ i
    → i < e + n
    → resident pinned i ≡ false
    → heat i ≤ (hottest heat pinned n e hot fh).1
unfolding hottest
hottest-ge_free heat pinned zero e fh hot i h k free = absurd (omega arith)
hottest-ge_free heat pinned (suc n) e fh hot i h k free = elim (Bool-cases (e == i)) [
  | inl here ↦ elim (Bool-cases (not (resident pinned e) && ltb fh (heat e))) [
    | inl better ↦
        rw (better, hottest)
          (ground (
            arith,
            hottest-ge heat pinned n (e + 1) (heat e) (some e),
            ap heat ((==_iff e i).0 here),
          ))
    | inr worse ↦
        rw (worse, hottest)
          (ground (
            arith,
            hottest-ge heat pinned n (e + 1) fh hot,
            ap heat ((==_iff e i).0 here),
            ap (resident pinned) ((==_iff e i).0 here),
          ))
  ]
  | inr above ↦ hottest-ge_free heat pinned n (e + 1) _ _ i (ground arith) (omega arith) free
]
