-- ===== src/Shards/Table/Finds.antt =====
-- The table that `st_init` builds: each tensor stands behind its home slot.
use native.Mathlib.Nat.{mod-lt}
use qwanto.Base.{
  used, used-set, free_slot, slot-set, distance, slot, ℕ, zero, suc, ◌+◌, ◌*◌, ◌%◌, ◌≤◌, ◌<◌, ◌≡◌,
  inl, inr, Option, none, some, List, [], ◌∷◌, length, set, ◌==◌, ltb, arith, refl, sym, ap, ◌∙◌,
  subst, Bool-cases, length-set,
}
use qwanto.Shards.{StTensor}
use qwanto.Shards.Table.{st_hash, tensor, grow, capacity, insert, build}
use qwanto.Shards.Table.Probes.{taken_free, Placed, insert-Placed}

-- A step of the doubling reaches the number, since a power of two is above its exponent.
grow-le : (fuel c n : ℕ) → n * 2 ≤ c + fuel → 0 < c → n * 2 ≤ grow fuel c n × (c ≤ grow fuel c n)
unfolding grow
grow-le zero c n h p = (omega (arith, h), omega arith)
grow-le (suc fuel) c n h p = elim (Bool-cases (ltb c (n * 2))) [
  | inl e ↦
      let (a, b) = grow-le fuel (c * 2) n (omega (arith, h, p)) (omega (arith, p)) in
      rw (e, grow) (a, omega (arith, b))
  | inr e ↦ rw (e, grow) (ground arith, omega arith)
]

-- The table has room for twice the tensors, and for one slot at least.
pub capacity-le : (n : ℕ) → n < capacity n
unfolding capacity
capacity-le n = let (a, b) = grow-le (n * 2) 1 n (omega arith) (omega arith) in omega (arith, a, b)

set_keeps :
    (xs : List (Option ℕ)) (q k : ℕ)
    → q < length xs
    → slot xs q ≡ none
    → (t i : ℕ) → slot xs t ≡ some i
    → slot (set xs q (some k)) t ≡ some i
set_keeps xs q k lt free t i f = elim (Bool-cases (t == q)) [
  | inl e ↦
      let same : q ≡ t = ground arith in
      absurd (taken_free f (subst (λ z. slot xs z ≡ none) same free))
  | inr e ↦ slot-set xs q t k lt ∙ rw e f
]

module _ (ts : List StTensor) where
  unfoldable pub home : ℕ → ℕ
  home j = st_hash (tensor ts j).name

  -- Where the index `j` stands in a table of `n` slots, behind indices below it.
  pub record Stands (n : ℕ) (xs : List (Option ℕ)) (j : ℕ) : Type 0 where
    pub d : ℕ
    pub near : d < n
    pub here : slot xs ((home j + d) % n) ≡ some j
    pub passed : (e : ℕ) → e < d → (i : ℕ) × (slot xs ((home j + e) % n) ≡ some i) × (i < j)

  -- The first `k` tensors are in the table.
  pub record IsTable (n k : ℕ) (xs : List (Option ℕ)) : Type 0 where
    pub size : length xs ≡ n
    pub count : used xs ≡ k
    pub below : (s i : ℕ) → slot xs s ≡ some i → i < k
    pub stands : (j : ℕ) → j < k → Stands n xs j

  Stands-kept :
      (n j : ℕ) (xs ys : List (Option ℕ))
      → ((t i : ℕ) → slot xs t ≡ some i → slot ys t ≡ some i)
      → Stands n xs j
      → Stands n ys j
  Stands-kept n j xs ys kept s = record {
    d = s.d;
    near = s.near;
    here = kept _ j s.here;
    passed = λ e lt. let (i, f, g) = s.passed e lt in (i, kept _ i f, g);
  }

  -- A tensor at the first free slot behind its home.
  set-IsTable :
      (k e : ℕ) (xs : List (Option ℕ)) (p : Placed xs (home k) k 0 e (length xs))
      → IsTable (length xs) k xs
      → e < length xs
      → IsTable (length xs) (suc k) (set xs ((home k + p.d) % length xs) (some k))
  set-IsTable k e xs p table near = record {
    size = length-set xs q (some k);
    count = used-set xs q k q_lt p.free ∙ ap suc table.count;
    below = λ t i f.
        let read = slot-set xs q t k q_lt in
        elim (Bool-cases (t == q)) [
          | inl e ↦ ground (arith, f, read)
          | inr e ↦
              let old : slot xs t ≡ some i = ground (arith, f, read) in
              omega (arith, table.below t i old)
        ];
    stands = λ j lt. elim (Bool-cases (j == k)) [
      | inl e ↦ let same : k ≡ j = ground arith in subst (Stands (length xs) ys) same last
      | inr e ↦
          Stands-kept (length xs) j xs ys (set_keeps xs q k q_lt p.free)
            (table.stands j (ground arith))
    ];
  }
    where
      q : ℕ
      q = (home k + p.d) % length xs

      ys : List (Option ℕ)
      ys = set xs q (some k)

      q_lt : q < length xs
      q_lt = mod-lt (home k + p.d) (omega (arith, near))

      last : Stands (length xs) ys k
      last = record {
        d = p.d;
        near = omega (arith, near, p.within);
        here = ground (arith, slot-set xs q q k q_lt);
        passed = λ e lt.
            let (i, f, u) = p.taken e (omega arith) lt in
            (i, set_keeps xs q k q_lt p.free _ i f, table.below _ i f);
      }

  -- The next tensor goes in.
  Inserted : ℕ → ℕ → List (Option ℕ) → Type 0
  Inserted n k xs =
      (ys : List (Option ℕ)) × (insert n n xs (home k % n) k ≡ some ys) × IsTable n (suc k) ys

  insert-IsTable :
      (k : ℕ) (xs : List (Option ℕ))
      → IsTable (length xs) k xs
      → k < length xs
      → Inserted (length xs) k xs
  unfolding Inserted
  insert-IsTable k xs table room =
      let (s, s_lt, s_free) = free_slot xs (omega (arith, table.count, room)) in
      let (e, e_lt, e_at) = distance (length xs) (home k) s s_lt in
      let p =
        insert-Placed xs (home k) k (length xs) 0 e (omega arith) (omega (arith, e_lt))
          (subst (λ z. slot xs z ≡ none) (sym e_at) s_free) in
      (
        set xs ((home k + p.d) % length xs) (some k),
        ap (λ z. insert (length xs) (length xs) xs (z % length xs) k) (omega arith) ∙ p.result,
        set-IsTable k e xs p table e_lt,
      )

  insert-Inserted : (n k : ℕ) (xs : List (Option ℕ)) → IsTable n k xs → k < n → Inserted n k xs
  insert-Inserted n k xs table =
      subst (λ m. IsTable m k xs → k < m → Inserted m k xs) table.size (insert-IsTable k xs) table

  -- The rest `us` of the tensors goes in.
  pub build-IsTable :
      (n k : ℕ) (us : List StTensor) (xs : List (Option ℕ))
      → ((i : ℕ) → i < length us → tensor us i ≡ tensor ts (k + i))
      → k + length us < n
      → IsTable n k xs
      → (ys : List (Option ℕ)) × (build n us k xs ≡ some ys) × IsTable n (k + length us) ys
  unfolding build Inserted home tensor
  build-IsTable n k [] xs same room table =
      (xs, refl, subst (λ m. IsTable n m xs) (omega arith) table)
  build-IsTable n k (t ∷ us) xs same room table =
      let first : t ≡ tensor ts k = same 0 (omega arith) ∙ ap (tensor ts) (omega arith) in
      let (ys, e, table') = insert-Inserted n k xs table (omega (arith, room)) in
      let (zs, f, table'') =
        build-IsTable n (k + 1) us ys
          (λ i lt. same (suc i) (omega (arith, lt)) ∙ ap (tensor ts) (omega arith))
          (omega (arith, room)) (subst (λ m. IsTable n m ys) (omega arith) table') in
      (zs, rw (first, e, build) f, subst (λ m. IsTable n m zs) (omega arith) table'')
