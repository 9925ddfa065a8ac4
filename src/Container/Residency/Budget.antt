-- ===== src/Container/Residency/Budget.antt =====
-- The sums of a residency plan against the budgets and against the placements.
use qwanto.Base.{ℕ, ◌+◌, ◌%◌, ◌^◌, ◌≤◌, ◌<◌, ◌≡◌, List, [], ◌∷◌, All, arith, some, subst}
use qwanto.Container.Model.{Model}
use qwanto.Container.Residency.{
  Tier, gpu, ram, nvme, Placement, Sums, fits, choose, charge, assign, Plan, plan_residency, sort,
  no_sums, plan_residency-eq-some,
}

-- The bytes of the placements in each tier.
abbrev pub gpu_total : List Placement → ℕ
gpu_total [] = 0
gpu_total (p ∷ ps) = elim p.tier [ gpu ↦ p.byte_size + gpu_total ps | _ ↦ gpu_total ps ]

abbrev pub ram_total : List Placement → ℕ
ram_total [] = 0
ram_total (p ∷ ps) = elim p.tier [ ram ↦ p.byte_size + ram_total ps | _ ↦ ram_total ps ]

abbrev pub nvme_total : List Placement → ℕ
nvme_total [] = 0
nvme_total (p ∷ ps) = elim p.tier [ nvme ↦ p.byte_size + nvme_total ps | _ ↦ nvme_total ps ]

-- No placement outside the GPU would still fit there, and none on NVMe would still fit in RAM, when the
-- sums have reached these.
abbrev pub IsFull : ℕ → ℕ → ℕ → ℕ → Placement → Type 0
IsFull gpu_budget ram_budget gpu_bytes ram_bytes p = elim p.tier [
  | gpu ↦ Unit
  | ram ↦ gpu_budget < gpu_bytes + p.byte_size
  | nvme ↦ (gpu_budget < gpu_bytes + p.byte_size) × (ram_budget < ram_bytes + p.byte_size)
]

module _ (gpu_budget ram_budget : ℕ) (gpu_fits : gpu_budget < 2 ^ 64)
    (ram_fits : ram_budget < 2 ^ 64) where
  -- What a choice means for the sum that it charges.
  abbrev Charged : Sums → ℕ → Tier → Type 0
  Charged s size gpu = (s.gpu_bytes + size ≤ gpu_budget) × (s.gpu_bytes + size < 2 ^ 64)
  Charged s size ram =
      (gpu_budget < s.gpu_bytes + size)
      × (s.ram_bytes + size ≤ ram_budget)
      × (s.ram_bytes + size < 2 ^ 64)
  Charged s size nvme = (gpu_budget < s.gpu_bytes + size) × (ram_budget < s.ram_bytes + size)

  choose-Charged :
      (s : Sums) (size : ℕ)
      → s.gpu_bytes ≤ gpu_budget
      → s.ram_bytes ≤ ram_budget
      → Charged s size (choose gpu_budget ram_budget s size)
  unfolding choose fits
  choose-Charged s size g r = ground arith

  -- What the loop makes of the sums `s`, with the placements `out.0`.
  abbrev Assigned : Sums → List Placement × Sums → Type 0
  Assigned s out =
      (out.1.gpu_bytes ≤ gpu_budget)
      × (out.1.ram_bytes ≤ ram_budget)
      × (out.1.gpu_bytes ≡ s.gpu_bytes + gpu_total out.0)
      × (out.1.ram_bytes ≡ s.ram_bytes + ram_total out.0)
      × (out.1.nvme_bytes % 2 ^ 64 ≡ (s.nvme_bytes + nvme_total out.0) % 2 ^ 64)

  cons-Assigned :
      (s : Sums) (p : Placement) (t : Tier) (out : List Placement × Sums)
      → Charged s p.byte_size t
      → Assigned (charge t p.byte_size s) out
      → Assigned s (record p { tier = t } ∷ out.0, out.1)
  unfolding charge
  cons-Assigned s p gpu out c a = omega arith
  cons-Assigned s p ram out c a = omega arith
  cons-Assigned s p nvme out c a = omega arith

  charge-le :
      (s : Sums) (size : ℕ) (t : Tier)
      → Charged s size t
      → s.gpu_bytes ≤ gpu_budget
      → s.ram_bytes ≤ ram_budget
      → let s' = charge t size s in (s'.gpu_bytes ≤ gpu_budget) × (s'.ram_bytes ≤ ram_budget)
  unfolding charge
  charge-le s size gpu c g r = omega arith
  charge-le s size ram c g r = omega arith
  charge-le s size nvme c g r = omega arith

  assign-Assigned :
      (ps : List Placement) (s : Sums)
      → s.gpu_bytes ≤ gpu_budget
      → s.ram_bytes ≤ ram_budget
      → Assigned s (assign gpu_budget ram_budget ps s)
  unfolding assign
  assign-Assigned [] s g r = omega arith
  assign-Assigned (p ∷ ps) s g r =
      let t = choose gpu_budget ram_budget s p.byte_size in
      let c = choose-Charged s p.byte_size g r in
      let le = charge-le s p.byte_size t c g r in
      cons-Assigned s p t (assign gpu_budget ram_budget ps (charge t p.byte_size s)) c
        (assign-Assigned ps (charge t p.byte_size s) le.0 le.1)

  cons-IsFull :
      (s u : Sums) (p : Placement) (t : Tier)
      → Charged s p.byte_size t
      → s.gpu_bytes ≤ u.gpu_bytes
      → s.ram_bytes ≤ u.ram_bytes
      → IsFull gpu_budget ram_budget u.gpu_bytes u.ram_bytes (record p { tier = t })
  cons-IsFull s u p gpu c g r = tt
  cons-IsFull s u p ram c g r = omega arith
  cons-IsFull s u p nvme c g r = omega arith

  charge-grows :
      (s : Sums) (size : ℕ) (t : Tier)
      → Charged s size t
      → let s' = charge t size s in (s.gpu_bytes ≤ s'.gpu_bytes) × (s.ram_bytes ≤ s'.ram_bytes)
  unfolding charge
  charge-grows s size gpu c = omega arith
  charge-grows s size ram c = omega arith
  charge-grows s size nvme c = omega arith

  assign-IsFull :
      (ps : List Placement) (s : Sums)
      → s.gpu_bytes ≤ gpu_budget
      → s.ram_bytes ≤ ram_budget
      → let (qs, u) = assign gpu_budget ram_budget ps s in
        All (IsFull gpu_budget ram_budget u.gpu_bytes u.ram_bytes) qs
        × (s.gpu_bytes ≤ u.gpu_bytes)
        × (s.ram_bytes ≤ u.ram_bytes)
  unfolding assign
  assign-IsFull [] s g r = (tt, omega arith, omega arith)
  assign-IsFull (p ∷ ps) s g r =
      let t = choose gpu_budget ram_budget s p.byte_size in
      let c = choose-Charged s p.byte_size g r in
      let le = charge-le s p.byte_size t c g r in
      let more = charge-grows s p.byte_size t c in
      let rest = assign-IsFull ps (charge t p.byte_size s) le.0 le.1 in
      (
        (
          cons-IsFull s (assign gpu_budget ram_budget ps (charge t p.byte_size s)).1 p t c
              (omega arith) (omega arith),
          rest.0,
        ),
        omega arith,
        omega arith,
      )

-- A plan keeps within both budgets; its GPU and RAM sums are those of the placements in these tiers
-- (and its NVMe sum is, up to the wrap of uint64_t); and it is greedy to the end: a placement outside
-- the GPU does not fit in what is left of the GPU budget, nor one on NVMe in what is left of RAM.
pub plan_residency-Budget :
    (m : Model) (gpu_budget ram_budget capacity : ℕ) {plan : Plan}
    → gpu_budget < 2 ^ 64
    → ram_budget < 2 ^ 64
    → plan_residency m gpu_budget ram_budget capacity ≡ some plan
    → (plan.gpu_bytes ≤ gpu_budget)
      × (plan.ram_bytes ≤ ram_budget)
      × (plan.gpu_bytes ≡ gpu_total plan.items)
      × (plan.ram_bytes ≡ ram_total plan.items)
      × (plan.nvme_bytes % 2 ^ 64 ≡ nvme_total plan.items % 2 ^ 64)
      × All (IsFull gpu_budget ram_budget plan.gpu_bytes plan.ram_bytes) plan.items
plan_residency-Budget m gb rb capacity {plan} hg hr e =
    let (ps, _, made) = plan_residency-eq-some m gb rb capacity e in
    subst Budget made (
      let a = assign-Assigned gb rb hg hr (sort ps) no_sums (omega arith) (omega arith) in
      let f = assign-IsFull gb rb hg hr (sort ps) no_sums (omega arith) (omega arith) in
      (a.0, a.1, omega arith, omega arith, omega arith, f.0))
  where
    Budget : Plan → Type 0
    Budget q =
        (q.gpu_bytes ≤ gb)
        × (q.ram_bytes ≤ rb)
        × (q.gpu_bytes ≡ gpu_total q.items)
        × (q.ram_bytes ≡ ram_total q.items)
        × (q.nvme_bytes % 2 ^ 64 ≡ nvme_total q.items % 2 ^ 64)
        × All (IsFull gb rb q.gpu_bytes q.ram_bytes) q.items
