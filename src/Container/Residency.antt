-- ===== src/Container/Residency.antt =====
-- `qwn_plan_residency` of c/qwanto_native.c: tensors by priority into GPU, RAM and NVMe.
pub mod Budget
pub mod Order
use qwanto.Base.{
  ℕ, zero, suc, ◌+◌, ◌-◌, Bool, true, false, ◌&&◌, ◌||◌, not, Option, none, some, List, [], ◌∷◌,
  length, ltb, leb, ◌==◌, if◌then◌else◌, c_string, u64, codes, String, ◌≡◌, inl, inr, Option-cases,
  arith,
}
use qwanto.Container.Desc.{TensorDesc}
use qwanto.Container.Model.{Model}
use qwanto.Container.Open.{hash_name}
use qwanto.Container.Find.{tensor_at}

-- QWN_TIER_GPU, QWN_TIER_RAM, QWN_TIER_NVME
pub data Tier : Type 0 where
  gpu ram nvme : Tier

-- `QwnPlacement`
pub record Placement : Type 0 where
  pub name_hash : ℕ
  pub byte_offset : ℕ
  pub byte_size : ℕ
  pub tensor_index : ℕ
  pub tier : Tier
  pub priority : ℕ

-- `QwnResidencyPlan`. `items` holds the `count` placements that the plan writes, and `capacity` is the
-- length of the caller's array.
pub record Plan : Type 0 where
  pub items : List Placement
  pub count : ℕ
  pub capacity : ℕ
  pub gpu_bytes : ℕ
  pub ram_bytes : ℕ
  pub nvme_bytes : ℕ

abbrev starts_with : List ℕ → List ℕ → Bool
starts_with [] ys = true
starts_with (x ∷ xs) [] = false
starts_with (x ∷ xs) (y ∷ ys) = let rest = starts_with xs ys in if x == y then rest else false

-- `strstr(text, word) != NULL`
unfoldable pub contains : List ℕ → List ℕ → Bool
contains [] word = starts_with word []
contains (c ∷ cs) word =
    let rest = contains cs word in if starts_with word (c ∷ cs) then true else rest

-- `tensor_priority`
unfoldable pub tensor_priority : List ℕ → ℕ
unfolding contains
tensor_priority name =
    let has : String → Bool = λ word. contains name (codes word) in
    if has "embed" || has "lm_head"
    then 255
    else if has "norm"
    then 245
    else if has "q_proj" || has "k_proj" || has "v_proj" || has "o_proj" || has "attn"
    then 230
    else if has "gate" && not (has "expert")
    then 210
    else if has "expert" || has "experts"
    then 80
    else 160

-- `placement_cmp(x, y) < 0`. It is never 0, and on placements of different tensors it is a strict total
-- order, so that `qsort` has one result, which `sort` gives.
unfoldable pub precedes : Placement → Placement → Bool
precedes x y =
    if not (x.priority == y.priority)
    then ltb y.priority x.priority
    else if not (x.byte_size == y.byte_size)
    then ltb x.byte_size y.byte_size
    else ltb x.tensor_index y.tensor_index

unfoldable pub insert : Placement → List Placement → List Placement
insert x [] = x ∷ []
insert x (y ∷ ys) = if precedes y x then y ∷ insert x ys else x ∷ y ∷ ys

unfoldable pub sort : List Placement → List Placement
unfolding insert
sort [] = []
sort (x ∷ xs) = insert x (sort xs)

unfoldable pub placement : ℕ → TensorDesc → Placement
placement i t = record {
  name_hash = hash_name t.name;
  byte_offset = t.byte_offset;
  byte_size = t.byte_size;
  tensor_index = i;
  tier = nvme;
  priority = tensor_priority (c_string t.name);
}

-- The first loop, with `n` tensors left from index `i`; `none` is its `return -1`.
unfoldable pub collect : Model → ℕ → ℕ → Option (List Placement)
collect m zero i = some []
collect m (suc n) i =
    let rest = collect m n (i + 1) in
    elim (tensor_at m i) [
      | none ↦ none
      | some t ↦ elim rest [ none ↦ none | some ps ↦ some (placement i t ∷ ps) ]
    ]

-- The three sums of a plan.
pub record Sums : Type 0 where
  pub gpu_bytes : ℕ
  pub ram_bytes : ℕ
  pub nvme_bytes : ℕ

unfoldable pub fits : ℕ → ℕ → ℕ → Bool
fits budget used size = leb used budget && leb size (budget - used)

unfoldable pub choose : ℕ → ℕ → Sums → ℕ → Tier
choose gpu_budget ram_budget s size =
    if fits gpu_budget s.gpu_bytes size
    then gpu
    else if fits ram_budget s.ram_bytes size
    then ram
    else nvme

unfoldable pub charge : Tier → ℕ → Sums → Sums
charge gpu size s = record s { gpu_bytes = u64 (s.gpu_bytes + size) }
charge ram size s = record s { ram_bytes = u64 (s.ram_bytes + size) }
charge nvme size s = record s { nvme_bytes = u64 (s.nvme_bytes + size) }

-- The second loop: the placements with their tiers, and the sums.
unfoldable pub assign : ℕ → ℕ → List Placement → Sums → List Placement × Sums
assign gpu_budget ram_budget [] s = ([], s)
assign gpu_budget ram_budget (p ∷ ps) s =
    let t = choose gpu_budget ram_budget s p.byte_size in
    let (qs, s') = assign gpu_budget ram_budget ps (charge t p.byte_size s) in
    (record p { tier = t } ∷ qs, s')

abbrev pub no_sums : Sums
no_sums = record { gpu_bytes = 0; ram_bytes = 0; nvme_bytes = 0 }

abbrev plan_of : ℕ → ℕ → List Placement × Sums → Plan
plan_of count capacity (items, s) = record {
  items = items;
  count = count;
  capacity = capacity;
  gpu_bytes = s.gpu_bytes;
  ram_bytes = s.ram_bytes;
  nvme_bytes = s.nvme_bytes;
}

-- `qwn_plan_residency` into a plan of that capacity; `none` is -1.
unfoldable pub plan_residency : Model → ℕ → ℕ → ℕ → Option Plan
plan_residency m gpu_budget ram_budget capacity =
    if ltb capacity m.hdr.n_tensors then none else elim (collect m m.hdr.n_tensors 0) [
      | none ↦ none
      | some ps ↦
          some (plan_of m.hdr.n_tensors capacity (assign gpu_budget ram_budget (sort ps) no_sums))
    ]

-- A plan comes from the placements that the first loop collects.
pub plan_residency-eq-some :
    (m : Model) (gpu_budget ram_budget capacity : ℕ) {plan : Plan}
    → plan_residency m gpu_budget ram_budget capacity ≡ some plan
    → (ps : List Placement) × (collect m m.hdr.n_tensors 0 ≡ some ps)
      × (plan_of m.hdr.n_tensors capacity (assign gpu_budget ram_budget (sort ps) no_sums) ≡ plan)
unfolding plan_residency
plan_residency-eq-some m gb rb capacity e = elim (Option-cases (collect m m.hdr.n_tensors 0)) [
  | inl gone ↦ absurd (ground arith)
  | inr (ps, there) ↦ (ps, there, ground arith)
]
