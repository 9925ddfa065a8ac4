-- ===== src/Speculative/Prefix/Newest.antt =====
-- The slot that an insert takes in the prefix cache of c/qwn_speculative.c.
use qwanto.Base.{
  ℕ, zero, suc, ◌<◌, ◌≡◌, Bool, true, false, none, some, List, [], ◌∷◌, ◌++◌, length, set, get_or,
  arith, refl,
}
use qwanto.Speculative.Prefix.{Prefix, first_index, no_prefix}

module _ {F : Type 0} where
  -- The first entry that passes a test is `e`.
  abbrev pub Finds : (Prefix F → Bool) → List (Prefix F) → Prefix F → Type 0
  Finds test es e = (i : ℕ) × (first_index test es ≡ some i) × (get_or es i no_prefix ≡ e)

  Finds-∷ :
      (test : Prefix F → Bool) (x : Prefix F) (es : List (Prefix F)) (e : Prefix F)
      → test x ≡ false
      → Finds test es e
      → Finds test (x ∷ es) e
  unfolding first_index
  Finds-∷ test x es e fails (i, found, here) =
      (suc i, rw (fails, first_index) (rw (found) refl), here)

  Finds-here :
      (test : Prefix F → Bool) (e : Prefix F) (es : List (Prefix F))
      → test e ≡ true
      → Finds test (e ∷ es) e
  unfolding first_index
  Finds-here test e es passes = (0, rw (passes, first_index) refl, refl)

  first_index-suc :
      (test : Prefix F → Bool) (x : Prefix F) (es : List (Prefix F)) (i : ℕ)
      → first_index test (x ∷ es) ≡ some (suc i)
      → (test x ≡ false) × (first_index test es ≡ some i)
  unfolding first_index
  first_index-suc test x es i h = grind arith

  first_index-none :
      (test : Prefix F → Bool) (x : Prefix F) (es : List (Prefix F))
      → first_index test (x ∷ es) ≡ none
      → (test x ≡ false) × (first_index test es ≡ none)
  unfolding first_index
  first_index-none test x es h = grind arith

  -- What follows from the index of a test that passes less often.
  module _ (p q : Prefix F → Bool) (weaker : (x : Prefix F) → p x ≡ false → q x ≡ false)
      (e : Prefix F) (new : q e ≡ true) where
    pub first_index-set :
        (es : List (Prefix F)) (i : ℕ) → first_index p es ≡ some i → Finds q (set es i e) e
    unfolding first_index
    first_index-set [] i h = cc
    first_index-set (x ∷ es) zero h = Finds-here q e es new
    first_index-set (x ∷ es) (suc i) h =
        let (fails, there) = first_index-suc p x es i h in
        Finds-∷ q x (set es i e) e (weaker x fails) (first_index-set es i there)

    pub first_index-none-set :
        (es : List (Prefix F)) (i : ℕ)
        → first_index p es ≡ none
        → i < length es
        → Finds q (set es i e) e
    unfolding first_index
    first_index-none-set [] i h lt = elim lt [ ]
    first_index-none-set (x ∷ es) zero h lt = Finds-here q e es new
    first_index-none-set (x ∷ es) (suc i) h lt =
        let (fails, there) = first_index-none p x es h in
        Finds-∷ q x (set es i e) e (weaker x fails) (first_index-none-set es i there (omega arith))

    pub first_index-append :
        (es : List (Prefix F)) → first_index p es ≡ none → Finds q (es ++ (e ∷ [])) e
    unfolding first_index
    first_index-append [] h = Finds-here q e [] new
    first_index-append (x ∷ es) h =
        let (fails, there) = first_index-none p x es h in
        Finds-∷ q x (es ++ (e ∷ [])) e (weaker x fails) (first_index-append es there)
