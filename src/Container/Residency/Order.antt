-- ===== src/Container/Residency/Order.antt =====
-- Which placements a residency plan holds, and in which order.
use mathlib.Core.List.{Perm}
use mathlib.Core.List.Perm
use qwanto.Base.{
  ℕ, zero, suc, ◌+◌, ◌≡◌, refl, ap, subst, true, false, List, [], ◌∷◌, map, All, arith, some, inl,
  inr, Bool-cases, Option-cases, some_eq, c_string,
}
use qwanto.Container.Desc.{TensorDesc}
use qwanto.Container.Model.{Model}
use qwanto.Container.Open.{hash_name}
use qwanto.Container.Find.{tensor_at}
use qwanto.Container.Residency.{
  Tier, Placement, Sums, Plan, tensor_priority, precedes, insert, sort, placement, collect, choose,
  charge, assign, plan_residency, plan_residency-eq-some, no_sums,
}

-- No later placement precedes an earlier one.
abbrev pub IsOrdered : List Placement → Type 0
IsOrdered [] = Unit
IsOrdered (p ∷ ps) = All (λ q. precedes q p ≡ false) ps × IsOrdered ps

precedes_asymm : (x y : Placement) → precedes y x ≡ true → precedes x y ≡ false
unfolding precedes
precedes_asymm x y h = ground arith

precedes_trans :
    (x y z : Placement) → precedes y x ≡ false → precedes z y ≡ false → precedes z x ≡ false
unfolding precedes
precedes_trans x y z h k = ground arith

All-insert {ℓ} :
    (P : Placement → Type ℓ) (x : Placement) (ys : List Placement)
    → P x
    → All P ys
    → All P (insert x ys)
unfolding insert
All-insert P x [] a b = (a, tt)
All-insert P x (y ∷ ys) a b = elim (Bool-cases (precedes y x)) [
  | inl before ↦ rw (before, insert) (b.0, All-insert P x ys a b.1)
  | inr after ↦ rw (after, insert) (a, b)
]

after-All :
    (x y : Placement) (ys : List Placement)
    → precedes y x ≡ false
    → All (λ q. precedes q y ≡ false) ys
    → All (λ q. precedes q x ≡ false) ys
after-All x y [] h a = tt
after-All x y (z ∷ zs) h a = (precedes_trans x y z h a.0, after-All x y zs h a.1)

insert-IsOrdered : (x : Placement) (ys : List Placement) → IsOrdered ys → IsOrdered (insert x ys)
unfolding insert
insert-IsOrdered x [] o = (tt, tt)
insert-IsOrdered x (y ∷ ys) o = elim (Bool-cases (precedes y x)) [
  | inl before ↦
      rw (before, insert)
        (
          All-insert (λ q. precedes q y ≡ false) x ys (precedes_asymm x y before) o.0,
          insert-IsOrdered x ys o.1,
        )
  | inr after ↦ rw (after, insert) ((after, after-All x y ys after o.0), o)
]

sort-IsOrdered : (xs : List Placement) → IsOrdered (sort xs)
unfolding sort
sort-IsOrdered [] = tt
sort-IsOrdered (x ∷ xs) = insert-IsOrdered x (sort xs) (sort-IsOrdered xs)

insert-perm : (x : Placement) (ys : List Placement) → Perm (insert x ys) (x ∷ ys)
unfolding insert
insert-perm x [] = Perm.refl (x ∷ [])
insert-perm x (y ∷ ys) = elim (Bool-cases (precedes y x)) [
  | inl before ↦
      rw (before, insert) (Perm.trans (Perm.cons y (insert-perm x ys)) (Perm.swap x y ys))
  | inr after ↦ rw (after, insert) (Perm.refl (x ∷ y ∷ ys))
]

sort-perm : (xs : List Placement) → Perm (sort xs) xs
unfolding sort
sort-perm [] = Perm.refl []
sort-perm (x ∷ xs) = Perm.trans (insert-perm x (sort xs)) (Perm.cons x (sort-perm xs))

All-sort {ℓ} : (P : Placement → Type ℓ) (xs : List Placement) → All P xs → All P (sort xs)
unfolding sort
All-sort P [] a = tt
All-sort P (x ∷ xs) a = All-insert P x (sort xs) a.0 (All-sort P xs a.1)

abbrev pub indices : List Placement → List ℕ
indices = map λ p. p.tensor_index

-- i, i + 1, … : n indices
abbrev pub upto : ℕ → ℕ → List ℕ
upto i zero = []
upto i (suc n) = i ∷ upto (i + 1) n

-- The placement is that of the tensor at its index.
pub record IsOf (m : Model) (p : Placement) : Type 0 where
  pub tensor : TensorDesc
  pub at : tensor_at m p.tensor_index ≡ some tensor
  pub hash : p.name_hash ≡ hash_name tensor.name
  pub offset : p.byte_offset ≡ tensor.byte_offset
  pub size : p.byte_size ≡ tensor.byte_size
  pub rank : p.priority ≡ tensor_priority (c_string tensor.name)

abbrev Collected : Model → ℕ → ℕ → List Placement → Type 0
Collected m n i ps = All (IsOf m) ps × (indices ps ≡ upto i n)

placement-IsOf :
    (m : Model) (i : ℕ) {t : TensorDesc} → tensor_at m i ≡ some t → IsOf m (placement i t)
unfolding placement
placement-IsOf m i {t} e = record {
  tensor = t;
  at = e;
  hash = refl;
  offset = refl;
  size = refl;
  rank = refl;
}

collect-Collected :
    (m : Model) (n i : ℕ) {ps : List Placement} → collect m n i ≡ some ps → Collected m n i ps
unfolding collect placement
collect-Collected m zero i e = subst (Collected m zero i) (some_eq e) (tt, refl)
collect-Collected m (suc n) i e = elim (Option-cases (tensor_at m i)) [
  | inl gone ↦ absurd (ground arith)
  | inr (t, there) ↦ elim (Option-cases (collect m n (i + 1))) [
    | inl gone ↦ absurd (ground arith)
    | inr (ps, rest) ↦
        let c = collect-Collected m n (i + 1) rest in
        subst (Collected m (suc n) i) (some_eq (rw (there, rest, collect) at e))
          ((placement-IsOf m i there, c.0), ap (λ is. i ∷ is) c.1)
  ]
]

module _ (gpu_budget ram_budget : ℕ) where
  indices-assign :
      (ps : List Placement) (s : Sums) → indices (assign gpu_budget ram_budget ps s).0 ≡ indices ps
  unfolding assign
  indices-assign [] s = refl
  indices-assign (p ∷ ps) s =
      ap (λ is. p.tensor_index ∷ is)
        (indices-assign ps (charge (choose gpu_budget ram_budget s p.byte_size) p.byte_size s))

  assign-IsOf :
      (m : Model) (ps : List Placement) (s : Sums)
      → All (IsOf m) ps
      → All (IsOf m) (assign gpu_budget ram_budget ps s).0
  unfolding assign
  assign-IsOf m [] s a = tt
  assign-IsOf m (p ∷ ps) s a = (
    record {
      tensor = o.tensor;
      at = o.at;
      hash = o.hash;
      offset = o.offset;
      size = o.size;
      rank = o.rank;
    },
    assign-IsOf m ps (charge (choose gpu_budget ram_budget s p.byte_size) p.byte_size s) a.1,
  )
    where
      o : IsOf m p
      o = a.0

  assign-after :
      (p : Placement) (t : Tier) (ps : List Placement) (s : Sums)
      → All (λ q. precedes q p ≡ false) ps
      → All (λ q. precedes q (record p { tier = t }) ≡ false) (assign gpu_budget ram_budget ps s).0
  unfolding assign precedes
  assign-after p t [] s a = tt
  assign-after p t (q ∷ qs) s a = (
    a.0,
    assign-after p t qs (charge (choose gpu_budget ram_budget s q.byte_size) q.byte_size s) a.1,
  )

  assign-IsOrdered :
      (ps : List Placement) (s : Sums)
      → IsOrdered ps
      → IsOrdered (assign gpu_budget ram_budget ps s).0
  unfolding assign
  assign-IsOrdered [] s o = tt
  assign-IsOrdered (p ∷ ps) s o =
      let t = choose gpu_budget ram_budget s p.byte_size in
      (
        assign-after p t ps (charge t p.byte_size s) o.0,
        assign-IsOrdered ps (charge t p.byte_size s) o.1,
      )

-- A plan holds each of the header's tensors once, with that tensor's data, in the order of
-- `placement_cmp`: priority downwards, then size upwards, then index upwards.
pub plan_residency-IsOrdered :
    (m : Model) (gpu_budget ram_budget capacity : ℕ) {plan : Plan}
    → plan_residency m gpu_budget ram_budget capacity ≡ some plan
    → Perm (indices plan.items) (upto 0 m.hdr.n_tensors)
      × All (IsOf m) plan.items
      × IsOrdered plan.items
plan_residency-IsOrdered m gb rb capacity {plan} e =
    let (ps, there, made) = plan_residency-eq-some m gb rb capacity e in
    let c = collect-Collected m m.hdr.n_tensors 0 there in
    subst Held made (
      rw (indices-assign gb rb (sort ps) no_sums, ← c.1)
          (Perm.map (λ p. p.tensor_index) (sort-perm ps)),
      assign-IsOf gb rb m (sort ps) no_sums (All-sort (IsOf m) ps c.0),
      assign-IsOrdered gb rb (sort ps) no_sums (sort-IsOrdered ps),
    )
  where
    Held : Plan → Type 0
    Held q =
        Perm (indices q.items) (upto 0 m.hdr.n_tensors) × All (IsOf m) q.items × IsOrdered q.items
