-- ===== src/Grammar/Forced.antt =====
-- `gr_forced` against the language of the grammar.
use qwanto.Base.{
  ℕ, zero, suc, ◌≤◌, ◌≡◌, inl, inr, Bool, false, not, ◌||◌, List, [], ◌∷◌, ◌++◌, length, leb, ◌==◌,
  arith, refl, sym, ap, ◌∙◌, subst, Bool-cases,
}
use qwanto.Grammar.{Grammar, IsNarrow, State}
use qwanto.Grammar.Walk.{
  admissible, first_bit, Verdict, consumed, rejected, off, accept, force, forced,
}
use qwanto.Grammar.Language.{Reads}
use qwanto.Grammar.Bounds.{IsSettled, accept-IsSettled}
use qwanto.Grammar.Walker.{IsDerivative, accept-IsDerivative}
use qwanto.Grammar.Mask.{only_byte, admissible-can_end}

module _ (G : Grammar) (narrow : IsNarrow G) where
  -- The test that ends the loop of `gr_forced`.
  abbrev stops : State → Bool
  stops S =
      not ((admissible G S).0 == 1)
      || (admissible G S).2
      || leb 256 (first_bit (admissible G S).1 0)

  force-prefix :
      (max : ℕ) (S : State) (w : List ℕ)
      → IsSettled G S.st
      → Reads G S.st w
      → (v : List ℕ) × (w ≡ force G max S ++ v)
  unfolding force
  force-prefix zero S w n d = (w, refl)
  force-prefix (suc max) S [] n d = elim (Bool-cases (stops S)) [
    | inl stop ↦ rw (stop, force) ([], refl)
    | inr goes ↦ absurd (let e = (admissible-can_end G narrow S n).1 d in ground (arith, goes, e))
  ]
  force-prefix (suc max) S (b ∷ w) n d = elim (Bool-cases (stops S)) [
    | inl stop ↦ rw (stop, force) (b ∷ w, refl)
    | inr goes ↦
        rw (goes, force)
          (after (first_bit (admissible G S).1 0) (only goes)
            (accept G S (first_bit (admissible G S).1 0))
            (accept-IsDerivative G narrow w S (first_bit (admissible G S).1 0) n)
            (accept-IsSettled G S (first_bit (admissible G S).1 0) n)
            (λ S' settled r. force-prefix max S' w settled r))
  ]
    where
      only : stops S ≡ false → first_bit (admissible G S).1 0 ≡ b
      only goes =
          let one : (admissible G S).0 ≡ 1 = ground arith in only_byte G narrow S b w n d one

      after :
          (c : ℕ)
          → c ≡ b
          → (x : Verdict × State) → IsDerivative G S c w x
          → IsSettled G x.1.st
          → ((S' : State)
              → IsSettled G S'.st
              → Reads G S'.st w
              → (v : List ℕ) × (w ≡ force G max S' ++ v))
          → (v : List ℕ) × (b ∷ w ≡ (elim x.0 [ consumed ↦ c ∷ force G max x.1 | _ ↦ [] ]) ++ v)
      after c e (consumed, S') h settled ih =
          let (v, rest) = ih S' settled (h.1 (subst (λ z. Reads G S.st (z ∷ w)) (sym e) d)) in
          (v, ap (λ z. z ∷ w) (sym e) ∙ ap (λ z. c ∷ z) rest)
      after c e (rejected, S') h settled ih = (b ∷ w, refl)
      after c e (off, S') h settled ih = (b ∷ w, refl)

  -- In a settled state, where no position of the grammar leaves int16_t, every continuation that it allows starts with the bytes that `gr_forced`
  -- writes.
  pub forced-prefix :
      (S : State) (max : ℕ) (w : List ℕ)
      → IsSettled G S.st
      → Reads G S.st w
      → (v : List ℕ) × (w ≡ forced G S max ++ v)
  unfolding forced
  forced-prefix S max w n d = elim (Bool-cases (not S.alive || (length S.st == 0))) [
    | inl idle ↦ rw (idle, forced) (w, refl)
    | inr runs ↦ rw (runs, forced) (force-prefix max S w n d)
  ]

  -- At most `max` bytes are written.
  force-fits : (max : ℕ) (S : State) → length (force G max S) ≤ max
  unfolding force
  force-fits zero S = omega arith
  force-fits (suc max) S = elim (Bool-cases (stops S)) [
    | inl stop ↦ rw (stop, force) (omega arith)
    | inr goes ↦
        rw (goes, force)
          (after (accept G S (first_bit (admissible G S).1 0)) (λ S'. force-fits max S'))
  ]
    where
      after :
          (x : Verdict × State)
          → ((S' : State) → length (force G max S') ≤ max)
          → length
              (elim x.0 [ consumed ↦ first_bit (admissible G S).1 0 ∷ force G max x.1 | _ ↦ [] ])
            ≤ suc max
      after (consumed, S') ih = omega (arith, ih S')
      after (rejected, S') ih = omega arith
      after (off, S') ih = omega arith
