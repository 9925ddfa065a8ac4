-- ===== src/Grammar/Normal.antt =====
-- `gr__normalize` against the language of the grammar.
use qwanto.Base.{
  ℕ, zero, suc, ◌+◌, ◌^◌, ◌≤◌, ◌<◌, ◌≡◌, ◌↔◌, ◌⊎◌, inl, inr, some, List, [], ◌∷◌, ◌++◌, length, leb,
  arith, refl, subst, Bool-cases, ◌==◌, ==_iff, Option-cases,
}
use qwanto.Grammar.{
  Sym, cls, ref, Grammar, IsNarrow, Stack, alts_of, alt_at, sym_at, max_depth, max_stacks,
}
use qwanto.Grammar.Walk.{
  bump, entered, holds, set_add, Walked, went, overflow, Settle, branch, settle, normalize,
}
use qwanto.Grammar.Language.{
  Matches, rule, rule_inv, pending, Some, Some-append, holds-Some, pending-used, pending-next,
  pending-start,
}

pub Walked-cases :
    (x : Walked) → ((out : List Stack) × (x ≡ went out)) ⊎ ((out : List Stack) × (x ≡ overflow out))
Walked-cases (went out) = inl (out, refl)
Walked-cases (overflow out) = inr (out, refl)

-- Where the call returns 1, one of the stacks written has the property exactly when one of those there
-- before had it, or `L` holds.
abbrev pub Adds : (Stack → Type 0) → Type 0 → List Stack → Walked → Type 0
Adds P L out (went out') = Some P out' ↔ (Some P out ⊎ L)
Adds P L out (overflow out') = Unit

pub Adds-iff :
    (P : Stack → Type 0) {K L : Type 0} (out : List Stack) (x : Walked)
    → K ↔ L
    → Adds P K out x
    → Adds P L out x
Adds-iff P out (went out') e h = grind arith
Adds-iff P out (overflow out') e h = tt

-- A call after one that wrote `out'`.
pub Adds-then :
    (P : Stack → Type 0) {K : Type 0} (L : Type 0) (out out' : List Stack) (x : Walked)
    → Adds P K out (went out')
    → Adds P L out' x
    → Adds P (K ⊎ L) out x
Adds-then P L out out' (went ks) g h = grind arith
Adds-then P L out out' (overflow ks) g h = tt

set_add-Adds :
    (P : Stack → Type 0) (k : Stack) (out : List Stack) → Adds P (P k) out (set_add out k)
unfolding set_add
set_add-Adds P k out = elim (Bool-cases (holds k out)) [
  | inl h ↦ rw h (inl, λ e. elim e [ inl x ↦ x | inr p ↦ holds-Some P k out h p ])
  | inr h ↦ elim (Bool-cases (leb max_stacks (length out))) [
    | inl full ↦ rw (h, full) tt
    | inr room ↦ rw (h, room) (Some-append P out k)
  ]
]

module _ (G : Grammar) (narrow : IsNarrow G) (w : List ℕ) where
  abbrev Reading : Stack → Type 0
  Reading k = Matches G (pending G k) w

  -- One of the `n` alternates from `a` on, followed by what the stack has to read, derives the word.
  abbrev FromAlternates : ℕ → ℕ → ℕ → Stack → Type 0
  FromAlternates r n a k =
      (i : ℕ) × (a ≤ i) × (i < a + n) × Matches G (alt_at G r i ++ pending G k) w

  first_alternate :
      (r n a : ℕ) (k : Stack)
      → a < 2 ^ 15
      → FromAlternates r (suc n) a k ↔ (Reading (entered r a ∷ k) ⊎ FromAlternates r n (a + 1) k)
  first_alternate r n a k small = rw (pending-start G r a k small) (
    λ x.
        let (i, lo, hi, d) = x in
        elim (Bool-cases (i == a)) [
          | inl e ↦
              inl (subst (λ j. Matches G (alt_at G r j ++ pending G k) w) ((==_iff i a).0 e) d)
          | inr e ↦ inr (i, ground arith, omega arith, d)
        ],
    λ x. elim x [
      | inl d ↦ (a, omega arith, omega arith, d)
      | inr y ↦ let (i, lo, hi, d) = y in (i, omega arith, omega arith, d)
    ],
  )

  branch-Adds :
      (next : Settle)
      → ((k : Stack) (out : List Stack) → Adds Reading (Reading k) out (next k out))
      → (r n a : ℕ) (k : Stack) (out : List Stack) → a + n ≤ 2 ^ 15
      → Adds Reading (FromAlternates r n a k) out (branch next r n a k out)
  unfolding branch
  branch-Adds next h r zero a k out small =
      (inl, λ e. elim e [ inl x ↦ x | inr x ↦ absurd (let (i, lo, hi, d) = x in omega arith) ])
  branch-Adds next h r (suc n) a k out small = elim (Bool-cases (leb max_depth (length k))) [
    | inl full ↦ rw (full, branch) tt
    | inr room ↦ elim (Walked-cases (next top out)) [
      | inl wrote ↦
          let (out', e) = wrote in
          rw (room, e, branch)
            (Adds-iff Reading out (branch next r n (a + 1) k out')
              (let (f, g) = first_alternate r n a k (omega arith) in (g, f))
              (Adds-then Reading _ out out' (branch next r n (a + 1) k out') (rw e at (h top out))
                (branch-Adds next h r n (a + 1) k out' (omega arith))))
      | inr failed ↦ rw (room, failed.1, branch) tt
    ]
  ]
    where
      top : Stack
      top = entered r a ∷ k

  settle-Adds :
      (descend : ℕ → Settle)
      → ((r : ℕ) (k : Stack) (out : List Stack)
          → Adds Reading (Matches G (ref r ∷ pending G k) w) out (descend r k out))
      → (k : Stack) (out : List Stack) → Adds Reading (Reading k) out (settle G descend k out)
  unfolding settle
  settle-Adds descend h [] out = set_add-Adds Reading [] out
  settle-Adds descend h (t ∷ k) out = elim (Option-cases (sym_at G t)) [
    | inl used ↦ rw (used, settle, pending-used G t k used) (settle-Adds descend h k out)
    | inr found ↦ let (y, e) = found in rw (e, settle) (at_symbol y e)
  ]
    where
      at_symbol :
          (y : Sym)
          → sym_at G t ≡ some y
          → Adds Reading
              (Reading (t ∷ k))
              out
              (elim y [ cls c ↦ set_add out (t ∷ k) | ref r ↦ descend r (bump t ∷ k) out ])
      at_symbol (cls c) e = set_add-Adds Reading (t ∷ k) out
      at_symbol (ref r) e = rw (pending-next G narrow t k e) (h r (bump t ∷ k) out)

  some_rule :
      (r : ℕ) (k : Stack)
      → FromAlternates r (length (alts_of G r)) 0 k ↔ Matches G (ref r ∷ pending G k) w
  some_rule r k = (
    λ x. let (i, lo, hi, d) = x in rule r i (pending G k) w (omega arith) d,
    λ d. let (i, hi, d') = rule_inv G d in (i, omega arith, omega arith, d'),
  )

  alternates-Adds :
      (next : Settle)
      → ((k : Stack) (out : List Stack) → Adds Reading (Reading k) out (next k out))
      → (r : ℕ) (k : Stack) (out : List Stack)
      → Adds Reading
          (Matches G (ref r ∷ pending G k) w)
          out
          (branch next r (length (alts_of G r)) 0 k out)
  alternates-Adds next h r k out =
      Adds-iff Reading out (branch next r (length (alts_of G r)) 0 k out) (some_rule r k)
        (branch-Adds next h r (length (alts_of G r)) 0 k out (omega (arith, narrow.alternates r)))

  pub normalize-Adds :
      (left : ℕ) (k : Stack) (out : List Stack)
      → Adds Reading (Reading k) out (normalize G left k out)
  unfolding normalize
  normalize-Adds zero k out = settle-Adds (λ r k out. overflow out) (λ r k out. tt) k out
  normalize-Adds (suc left) k out =
      settle-Adds (λ r k out. branch (normalize G left) r (length (alts_of G r)) 0 k out)
        (alternates-Adds (normalize G left) (normalize-Adds left)) k out

  -- The loop of `gr_state_init`.
  pub start-Adds :
      Adds Reading
        (Matches G (ref G.root ∷ []) w)
        []
        (branch (normalize G max_depth) G.root (length (alts_of G G.root)) 0 [] [])
  unfolding pending
  start-Adds = alternates-Adds (normalize G max_depth) (normalize-Adds max_depth) G.root [] []
