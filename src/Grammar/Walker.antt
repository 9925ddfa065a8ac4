-- ===== src/Grammar/Walker.antt =====
-- `gr_state_init` and `gr_accept` against the language of the grammar.
use qwanto.Base.{
  ℕ, ◌≡◌, ◌↔◌, ◌⊎◌, inl, inr, Bool, true, false, List, [], ◌∷◌, length, if◌then◌else◌, arith, refl,
  sym, subst, Bool-cases, All, All-mono, ◌∙◌, true_ne_false,
}
use qwanto.Grammar.{ref, Grammar, IsNarrow, Frame, Stack, State, max_depth, alts_of}
use qwanto.Grammar.Walk.{
  bump, Walked, went, overflow, normalize, branch, started, state_init, takes, advance, Verdict,
  consumed, rejected, off, accepted, accept,
}
use qwanto.Grammar.Language.{Matches, byte, byte_inv, empty_no_byte, pending, pending-next, Reads}
use qwanto.Grammar.Normal.{Walked-cases, Adds, Adds-iff, Adds-then, normalize-Adds, start-Adds}
use qwanto.Grammar.Bounds.{IsNormal, IsSettled}

-- What a result of `gr_accept` on a byte says of the words that start with it.
abbrev pub IsDerivative : Grammar → State → ℕ → List ℕ → Verdict × State → Type 0
IsDerivative G S b w (consumed, S') = Reads G S'.st w ↔ Reads G S.st (b ∷ w)
IsDerivative G S b w (rejected, S') = (S' ≡ S) × (¬ Reads G S.st (b ∷ w))
IsDerivative G S b w (off, S') = S'.alive ≡ false

module _ (G : Grammar) (narrow : IsNarrow G) (w : List ℕ) where
  abbrev Reading : Stack → Type 0
  Reading k = Matches G (pending G k) w

  -- Where no position of the grammar leaves int16_t and `gr_state_init` leaves the walker alive, the start state reads exactly the words that the root
  -- derives.
  pub state_init-Reads :
      (state_init G).alive ≡ true → Reads G (state_init G).st w ↔ Matches G (ref G.root ∷ []) w
  unfolding state_init started
  state_init-Reads e =
      at_result (branch (normalize G max_depth) G.root (length (alts_of G G.root)) 0 [] []) e
        (start-Adds G narrow w)
    where
      at_result :
          (x : Walked)
          → (started x).alive ≡ true
          → Adds (λ k. Matches G (pending G k) w) (Matches G (ref G.root ∷ []) w) [] x
          → Reads G (started x).st w ↔ Matches G (ref G.root ∷ []) w
      at_result (went []) live h = cc
      at_result (went (k ∷ ks)) live h = grind arith
      at_result (overflow ks) live h = cc

  takes-byte :
      (b : ℕ) (t : Frame) (k : Stack)
      → IsNormal G (t ∷ k)
      → (takes G b t ≡ true)
      → Matches G (pending G (t ∷ k)) (b ∷ w) ↔ Matches G (pending G (bump t ∷ k)) w
  unfolding takes
  takes-byte b t k (c, e) h =
      rw (pending-next G narrow t k e)
        (λ d. (byte_inv G d).1, λ d. byte c b (pending G (bump t ∷ k)) w (rw (takes, e) at h) d)

  pub skips-byte :
      (b : ℕ) (t : Frame) (k : Stack)
      → IsNormal G (t ∷ k)
      → (takes G b t ≡ false)
      → ¬ Matches G (pending G (t ∷ k)) (b ∷ w)
  unfolding takes
  skips-byte b t k (c, e) h = λ d.
      true_ne_false
        (sym (byte_inv G (rw (pending-next G narrow t k e) at d)).0 ∙ (rw (takes, e) at h))

  advance-Adds :
      (b : ℕ) (ks out : List Stack)
      → All (IsNormal G) ks
      → Adds (λ k. Matches G (pending G k) w) (Reads G ks (b ∷ w)) out (advance G b ks out)
  unfolding advance
  advance-Adds b [] out n = (inl, λ x. elim x [ inl p ↦ p | inr q ↦ absurd q ])
  advance-Adds b ([] ∷ ks) out n =
      Adds-iff Reading out (advance G b ks out)
        (inr, λ x. elim x [ inl d ↦ absurd (empty_no_byte G d) | inr y ↦ y ])
        (advance-Adds b ks out n.1)
  advance-Adds b ((t ∷ k) ∷ ks) out n = elim (Bool-cases (takes G b t)) [
    | inr passed ↦
        rw (passed, advance)
          (Adds-iff Reading out (advance G b ks out)
            (inr, λ x. elim x [ inl d ↦ absurd (skips-byte b t k n.0 passed d) | inr y ↦ y ])
            (advance-Adds b ks out n.1))
    | inl taken ↦ elim (Walked-cases (normalize G max_depth (bump t ∷ k) out)) [
      | inl wrote ↦
          let (out', e) = wrote in
          rw (taken, e, advance)
            (Adds-iff Reading out (advance G b ks out') (head_iff taken) (
              Adds-then Reading _ out out' (advance G b ks out')
                (rw e at (normalize-Adds G narrow w max_depth (bump t ∷ k) out))
                (advance-Adds b ks out' n.1)))
      | inr failed ↦ rw (taken, failed.1, advance) tt
    ]
  ]
    where
      head_iff :
          takes G b t ≡ true
          → (Matches G (pending G (bump t ∷ k)) w ⊎ Reads G ks (b ∷ w))
            ↔ (Matches G (pending G (t ∷ k)) (b ∷ w) ⊎ Reads G ks (b ∷ w))
      head_iff taken =
          let (f, g) = takes-byte b t k n.0 taken in
          (
            λ x. elim x [ inl d ↦ inl (g d) | inr y ↦ inr y ],
            λ x. elim x [ inl d ↦ inl (f d) | inr y ↦ inr y ],
          )

  -- On any settled state of a grammar none of whose positions leaves int16_t, where `gr_accept` returns 1, the new state reads exactly the words that the old one
  -- reads behind the byte; where it returns 0, the state is unchanged and reads no word that starts with
  -- the byte; where it returns -1, the walker is off.
  pub accept-IsDerivative :
      (S : State) (b : ℕ) → IsSettled G S.st → IsDerivative G S b w (accept G S b)
  unfolding accept accepted
  accept-IsDerivative S b n = elim (Bool-cases S.alive) [
    | inr dead ↦ subst Derives (sym dead) dead
    | inl live ↦ subst Derives (sym live) (
        at_result (advance G b S.st [])
          (advance-Adds b S.st [] (All-mono _ (IsNormal G) (λ k p. p.0) S.st n.0)))
  ]
    where
      Derives : Bool → Type 0
      Derives t = IsDerivative G S b w (if t then accepted S (advance G b S.st []) else (off, S))

      at_result :
          (x : Walked)
          → Adds Reading (Reads G S.st (b ∷ w)) [] x
          → IsDerivative G S b w (accepted S x)
      at_result (went []) h = (refl, λ d. elim (h.1 (inr d)) [ ])
      at_result (went (k ∷ ks)) h =
          (λ x. elim (h.0 x) [ inl z ↦ absurd z | inr y ↦ y ], λ y. h.1 (inr y))
      at_result (overflow out) h = refl
