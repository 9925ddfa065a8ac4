-- ===== src/Grammar/Progress.antt =====
-- The mask of `gr_admissible` beside `gr_accept`.
use qwanto.Base.{
  ℕ, zero, suc, ◌+◌, ◌<◌, ◌≡◌, ◌⊎◌, inl, inr, Bool, true, false, some, List, [], ◌∷◌, length,
  get_or, leb, if◌then◌else◌, arith, sym, ◌∙◌, Bool-cases, Option-cases, true_ne_false,
}
use qwanto.Grammar.{
  Sym, cls, ref, Grammar, IsNarrow, Frame, Stack, State, alts_of, sym_at, max_depth, max_stacks,
}
use qwanto.Grammar.Walk.{
  bump, entered, holds, set_add, Walked, went, overflow, Settle, branch, settle, normalize, takes,
  advance, admissible, rejected, off, accepted, accept,
}
use qwanto.Grammar.Language.{Some}
use qwanto.Grammar.Normal.{Walked-cases}
use qwanto.Grammar.Mask.{TopHas, admissible-mask}

-- Every rule that is referred to has an alternate.
abbrev pub IsDefined : Grammar → Type 0
IsDefined G = (t : Frame) (r : ℕ) → sym_at G t ≡ some (ref r) → 0 < length (alts_of G r)

-- Where the call returns 1, there is a stack.
abbrev Fills : Walked → Type 0
Fills (went out) = 0 < length out
Fills (overflow out) = Unit

set_add-Fills : (k : Stack) (out : List Stack) → Fills (set_add out k)
unfolding set_add holds
set_add-Fills k [] = ground arith
set_add-Fills k (x ∷ out) =
    either (holds k (x ∷ out)) (went (x ∷ out)) _ (omega arith)
      (either (leb max_stacks (length (x ∷ out))) (overflow (x ∷ out)) _ tt (omega arith))
  where
    either : (t : Bool) (y z : Walked) → Fills y → Fills z → Fills (if t then y else z)
    either true y z f g = f
    either false y z f g = g

branch-Fills :
    (next : Settle)
    → ((k : Stack) (out : List Stack) → Fills (next k out))
    → (r n a : ℕ) (k : Stack) (out : List Stack) → (0 < n) ⊎ (0 < length out)
    → Fills (branch next r n a k out)
unfolding branch
branch-Fills next h r zero a k out (inl x) = elim x [ ]
branch-Fills next h r zero a k out (inr x) = x
branch-Fills next h r (suc n) a k out x = elim (Bool-cases (leb max_depth (length k))) [
  | inl full ↦ rw (full, branch) tt
  | inr room ↦ elim (Walked-cases (next top out)) [
    | inl wrote ↦
        let (out', e) = wrote in
        rw (room, e, branch) (branch-Fills next h r n (a + 1) k out' (inr (rw e at (h top out))))
    | inr failed ↦ rw (room, failed.1, branch) tt
  ]
]
  where
    top : Stack
    top = entered r a ∷ k

module _ (G : Grammar) (narrow : IsNarrow G) (defined : IsDefined G) where
  settle-Fills :
      (descend : ℕ → Settle)
      → ((r : ℕ) (k : Stack) (out : List Stack)
          → 0 < length (alts_of G r)
          → Fills (descend r k out))
      → (k : Stack) (out : List Stack) → Fills (settle G descend k out)
  unfolding settle
  settle-Fills descend h [] out = set_add-Fills [] out
  settle-Fills descend h (t ∷ k) out = elim (Option-cases (sym_at G t)) [
    | inl used ↦ rw (used, settle) (settle-Fills descend h k out)
    | inr found ↦ let (y, e) = found in rw (e, settle) (at_symbol y e)
  ]
    where
      at_symbol :
          (y : Sym)
          → sym_at G t ≡ some y
          → Fills (elim y [ cls c ↦ set_add out (t ∷ k) | ref r ↦ descend r (bump t ∷ k) out ])
      at_symbol (cls c) e = set_add-Fills (t ∷ k) out
      at_symbol (ref r) e = h r (bump t ∷ k) out (defined t r e)

  normalize-Fills : (left : ℕ) (k : Stack) (out : List Stack) → Fills (normalize G left k out)
  unfolding normalize
  normalize-Fills zero k out =
      settle-Fills (λ r k out. overflow out) (λ r k out some_alternate. tt) k out
  normalize-Fills (suc left) k out =
      settle-Fills (λ r k out. branch (normalize G left) r (length (alts_of G r)) 0 k out)
        (λ r k out some_alternate.
          branch-Fills (normalize G left) (normalize-Fills left) r _ 0 k out (inl some_alternate))
        k out

  advance-Fills :
      (b : ℕ) (ks out : List Stack)
      → Some (TopHas G b) ks ⊎ (0 < length out)
      → Fills (advance G b ks out)
  unfolding advance
  advance-Fills b [] out x = elim x [ inl y ↦ absurd y | inr y ↦ y ]
  advance-Fills b ([] ∷ ks) out x =
      advance-Fills b ks out
        (elim x [ inl y ↦ elim y [ inl z ↦ absurd z | inr z ↦ inl z ] | inr y ↦ inr y ])
  advance-Fills b ((t ∷ k) ∷ ks) out x = elim (Bool-cases (takes G b t)) [
    | inr passed ↦
        rw (passed, advance)
          (advance-Fills b ks out (elim x [
            | inl y ↦ elim y [ inl z ↦ absurd (true_ne_false (sym z ∙ passed)) | inr z ↦ inl z ]
            | inr y ↦ inr y
          ]))
    | inl taken ↦ elim (Walked-cases (normalize G max_depth (bump t ∷ k) out)) [
      | inl wrote ↦
          let (out', e) = wrote in
          rw (taken, e, advance)
            (advance-Fills b ks out' (inr (rw e at (normalize-Fills max_depth (bump t ∷ k) out))))
      | inr failed ↦ rw (taken, failed.1, advance) tt
    ]
  ]

  -- Where every rule that is referred to has an alternate, no position leaves int16_t and the walker is alive, `gr_accept` does not
  -- refuse a byte that is in the mask of `gr_admissible`.
  pub admissible-accept :
      (S : State) (b : ℕ)
      → S.alive ≡ true
      → get_or (admissible G S).1 b false ≡ true
      → ¬ ((accept G S b).0 ≡ rejected)
  unfolding accept accepted
  admissible-accept S b live h e =
      go S.alive (advance G b S.st [])
        (advance-Fills b S.st [] (inl ((admissible-mask G narrow S b).0 h))) live e
    where
      go :
          (t : Bool) (x : Walked)
          → Fills x
          → t ≡ true
          → ¬ ((if t then accepted S x else (off, S)).0 ≡ rejected)
      go true (went []) f live v = elim f [ ]
      go true (went (k ∷ ks)) f live v = cc
      go true (overflow out) f live v = cc
      go false x f live v = cc
