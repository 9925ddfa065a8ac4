-- ===== src/Shards/Table/Probes.antt =====
-- The loops of the hash table of c/st.h, by how far behind the home slot they go.
use qwanto.Base.{
  step, slot, ℕ, zero, suc, ◌+◌, ◌%◌, ◌≤◌, ◌<◌, ◌≡◌, ◌≢◌, inl, inr, false, Option, none, some, List,
  length, set, ◌==◌, arith, sym, ap, ◌∙◌, subst, Bool-cases, Option-cases,
}
use qwanto.Shards.{StTensor}
use qwanto.Shards.Table.{insert, named, probe, Lookup}

-- A taken slot is not a free one.
pub taken_free : {i : ℕ} {o : Option ℕ} → o ≡ some i → o ≡ none → ⊥
taken_free e f = cc

module _ (xs : List (Option ℕ)) (h : ℕ) where
  -- The slots from the distance `a` to the distance `b` hold an index with `P`.
  abbrev pub Taken : (ℕ → Type 0) → ℕ → ℕ → Type 0
  Taken P a b = (e : ℕ) → a ≤ e → e < b → (i : ℕ) × (slot xs ((h + e) % length xs) ≡ some i) × P i

  -- The index is placed in the first free slot, at the distance `d`.
  pub record Placed (i o e fuel : ℕ) : Type 0 where
    pub d : ℕ
    pub from : o ≤ d
    pub within : d ≤ e
    pub free : slot xs ((h + d) % length xs) ≡ none
    pub taken : Taken (λ j. Unit) o d
    pub result :
        insert (length xs) fuel xs ((h + o) % length xs) i
        ≡ some (set xs ((h + d) % length xs) (some i))

  pub insert-Placed :
      (i fuel o e : ℕ)
      → o ≤ e
      → e < o + fuel
      → slot xs ((h + e) % length xs) ≡ none
      → Placed i o e fuel
  unfolding insert
  insert-Placed i zero o e le lt free = absurd (omega arith)
  insert-Placed i (suc fuel) o e le lt free = elim (Option-cases (slot xs ((h + o) % length xs))) [
    | inl here ↦ record {
      d = o;
      from = omega arith;
      within = le;
      free = here;
      taken = λ e' a b. absurd (omega arith);
      result = rw (here, insert);
    }
    | inr found ↦
        let (j, there) = found in
        let further : o ≢ e = λ same.
          taken_free there (subst (λ z. slot xs ((h + z) % length xs) ≡ none) (sym same) free) in
        let p = insert-Placed i fuel (o + 1) e (omega (arith, further)) (omega arith) free in
        record {
          d = p.d;
          from = omega (arith, p.from);
          within = p.within;
          free = p.free;
          taken = λ e' a b. elim (Bool-cases (e' == o)) [
            | inl same ↦
                let eq : o ≡ e' = ground arith in
                (j, subst (λ z. slot xs ((h + z) % length xs) ≡ some j) eq there, tt)
            | inr other ↦ p.taken e' (ground arith) b
          ];
          result =
              rw (there, insert)
                (ap (λ z. insert (length xs) fuel xs z i) (step (length xs) h o) ∙ p.result);
        }
  ]

  -- A lookup passes the tensors of other names, up to the distance `d`.
  pub probe-Taken :
      (ts : List StTensor) (name : List ℕ) (r : Lookup) (fuel o d : ℕ)
      → o ≤ d
      → d < o + fuel
      → ((m : ℕ) → probe ts xs name (suc m) ((h + d) % length xs) ≡ r)
      → Taken (λ i. named ts name i ≡ false) o d
      → probe ts xs name fuel ((h + o) % length xs) ≡ r
  unfolding probe
  probe-Taken ts name r zero o d le lt last passed = absurd (omega arith)
  probe-Taken ts name r (suc fuel) o d le lt last passed = elim (Bool-cases (o == d)) [
    | inl same ↦
        let eq : d ≡ o = ground arith in
        subst (λ z. probe ts xs name (suc fuel) ((h + z) % length xs) ≡ r) eq (last fuel)
    | inr other ↦
        let (i, there, no_match) = passed o (omega arith) (ground arith) in
        rw (there, probe, no_match, probe)
          (ap (probe ts xs name fuel) (step (length xs) h o)
            ∙ probe-Taken ts name r fuel (o + 1) d (ground arith) (omega arith) last
                (λ e a b. passed e (omega arith) b))
  ]
