-- ===== src/Grammar/Bounds.antt =====
-- The form and the number of the stacks that the walker of c/grammar.h keeps.
use qwanto.Base.{
  ℕ, zero, suc, ◌+◌, ◌≤◌, ◌<◌, ◌≡◌, inl, inr, Bool, some, List, [], ◌∷◌, length, leb, arith, sym,
  subst, if◌then◌else◌, Bool-cases, Option-cases, All, All-snoc, length-append,
}
use qwanto.Grammar.{
  Class, Sym, cls, ref, Grammar, Stack, State, alts_of, sym_at, max_depth, max_stacks,
}
use qwanto.Grammar.Walk.{
  bump, entered, holds, set_add, Walked, went, overflow, Settle, branch, settle, normalize, started,
  state_init, takes, advance, off, accepted, accept,
}
use qwanto.Grammar.Normal.{Walked-cases}

unfoldable stacks_of : Walked → List Stack
stacks_of (went out) = out
stacks_of (overflow out) = out

-- The stack is empty, which stands for a complete parse, or a class is on its top.
abbrev pub IsNormal : Grammar → Stack → Type 0
IsNormal G [] = Unit
IsNormal G (t ∷ k) = (c : Class) × (sym_at G t ≡ some (cls c))

-- The stacks are in normal form, each fits its array, and together they fit theirs.
abbrev pub IsSettled : Grammar → List Stack → Type 0
IsSettled G ks = All (λ k. IsNormal G k × (length k ≤ max_depth)) ks × (length ks ≤ max_stacks)

module _ (G : Grammar) where
  set_add-IsSettled :
      (out : List Stack) (k : Stack)
      → IsNormal G k
      → length k ≤ max_depth
      → IsSettled G out
      → IsSettled G (stacks_of (set_add out k))
  unfolding set_add stacks_of
  set_add-IsSettled out k n d h = elim (Bool-cases (holds k out)) [
    | inl e ↦ rw (e, set_add) h
    | inr e ↦ elim (Bool-cases (leb max_stacks (length out))) [
      | inl full ↦ rw (e, full, set_add) h
      | inr room ↦
          rw (e, room, set_add)
            (
              All-snoc _ out k h.0 (n, d),
              let fits : length out < max_stacks = ground arith in
                  omega (arith, length-append out (k ∷ [])),
            )
    ]
  ]

  -- What every call in the recursion keeps.
  abbrev Keeps : Settle → Type 0
  Keeps f =
      (k : Stack) (out : List Stack)
      → length k ≤ max_depth
      → IsSettled G out
      → IsSettled G (stacks_of (f k out))

  branch-IsSettled : (next : Settle) → Keeps next → (r n a : ℕ) → Keeps (branch next r n a)
  unfolding branch stacks_of
  branch-IsSettled next h r zero a k out d g = g
  branch-IsSettled next h r (suc n) a k out d g = elim (Bool-cases (leb max_depth (length k))) [
    | inl full ↦ rw (full, branch) g
    | inr room ↦ elim (Walked-cases (next top out)) [
      | inl wrote ↦
          let (out', e) = wrote in
          rw (room, e, branch)
            (branch-IsSettled next h r n (a + 1) k out' d (rw e at (h top out (ground arith) g)))
      | inr failed ↦
          let (out', e) = failed in rw (room, e, branch) (rw e at (h top out (ground arith) g))
    ]
  ]
    where
      top : Stack
      top = entered r a ∷ k

  settle-IsSettled :
      (descend : ℕ → Settle) → ((r : ℕ) → Keeps (descend r)) → Keeps (settle G descend)
  unfolding settle stacks_of
  settle-IsSettled descend h [] out d g = set_add-IsSettled out [] tt d g
  settle-IsSettled descend h (t ∷ k) out d g = elim (Option-cases (sym_at G t)) [
    | inl used ↦ rw (used, settle) (settle-IsSettled descend h k out (omega arith) g)
    | inr found ↦ let (y, e) = found in rw (e, settle) (at_symbol y e)
  ]
    where
      at_symbol :
          (y : Sym)
          → sym_at G t ≡ some y
          → IsSettled G (
              stacks_of
                (elim y [ cls c ↦ set_add out (t ∷ k) | ref r ↦ descend r (bump t ∷ k) out ]))
      at_symbol (cls c) e = set_add-IsSettled out (t ∷ k) (c, e) d g
      at_symbol (ref r) e = h r (bump t ∷ k) out d g

  normalize-IsSettled : (left : ℕ) → Keeps (normalize G left)
  unfolding normalize stacks_of
  normalize-IsSettled zero k out d g =
      settle-IsSettled (λ r k out. overflow out) (λ r k out d g. g) k out d g
  normalize-IsSettled (suc left) k out d g =
      settle-IsSettled (λ r k out. branch (normalize G left) r (length (alts_of G r)) 0 k out)
        (λ r. branch-IsSettled (normalize G left) (normalize-IsSettled left) r _ 0) k out d g

  -- The start state of `gr_state_init` is settled.
  pub state_init-IsSettled : IsSettled G (state_init G).st
  unfolding state_init started stacks_of
  state_init-IsSettled =
      at_result (branch (normalize G max_depth) G.root (length (alts_of G G.root)) 0 [] []) (
        branch-IsSettled (normalize G max_depth) (normalize-IsSettled max_depth) G.root
          (length (alts_of G G.root)) 0 [] [] (ground arith) (tt, ground arith))
    where
      at_result : (x : Walked) → IsSettled G (stacks_of x) → IsSettled G (started x).st
      at_result (went []) h = h
      at_result (went (k ∷ ks)) h = h
      at_result (overflow ks) h = h

  advance-IsSettled :
      (b : ℕ) (ks out : List Stack)
      → All (λ k. IsNormal G k × (length k ≤ max_depth)) ks
      → IsSettled G out
      → IsSettled G (stacks_of (advance G b ks out))
  unfolding advance stacks_of
  advance-IsSettled b [] out h g = g
  advance-IsSettled b ([] ∷ ks) out h g = advance-IsSettled b ks out h.1 g
  advance-IsSettled b ((t ∷ k) ∷ ks) out h g = elim (Bool-cases (takes G b t)) [
    | inr passed ↦ rw (passed, advance) (advance-IsSettled b ks out h.1 g)
    | inl taken ↦ elim (Walked-cases (normalize G max_depth (bump t ∷ k) out)) [
      | inl wrote ↦
          let (out', e) = wrote in
          rw (taken, e, advance) (advance-IsSettled b ks out' h.1 (rw e at grown))
      | inr failed ↦ let (out', e) = failed in rw (taken, e, advance) (rw e at grown)
    ]
  ]
    where
      grown : IsSettled G (stacks_of (normalize G max_depth (bump t ∷ k) out))
      grown = normalize-IsSettled max_depth (bump t ∷ k) out h.0.1 g

  -- `gr_accept` keeps the stacks of a settled state in normal form, at most 64 of them and each of at most
  -- 64 frames, whatever it returns.
  pub accept-IsSettled : (S : State) (b : ℕ) → IsSettled G S.st → IsSettled G (accept G S b).1.st
  unfolding accept accepted stacks_of
  accept-IsSettled S b h = elim (Bool-cases S.alive) [
    | inr dead ↦ subst Keeping (sym dead) h
    | inl live ↦
        subst Keeping (sym live)
          (at_result (advance G b S.st []) (advance-IsSettled b S.st [] h.0 (tt, ground arith)))
  ]
    where
      Keeping : Bool → Type 0
      Keeping t = IsSettled G (if t then accepted S (advance G b S.st []) else (off, S)).1.st

      at_result : (x : Walked) → IsSettled G (stacks_of x) → IsSettled G (accepted S x).1.st
      at_result (went []) g = h
      at_result (went (k ∷ ks)) g = g
      at_result (overflow out) g = h
