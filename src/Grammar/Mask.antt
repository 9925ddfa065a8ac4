-- ===== src/Grammar/Mask.antt =====
-- `gr_admissible` against the language of the grammar.
use qwanto.Base.{
  ℕ, zero, suc, ◌+◌, ◌≡◌, ◌↔◌, ◌⊎◌, inl, inr, true, false, ◌||◌, List, [], ◌∷◌, get_or, replicate,
  arith, refl, sym, ap, ◌∙◌, Bool-cases, true_ne_false, All, All-mono,
}
use qwanto.Grammar.{Class, Grammar, IsNarrow, Frame, Stack, State}
use qwanto.Grammar.Walk.{takes, or_bits, class_at, mask_of, count_bits, admissible, first_bit}
use qwanto.Grammar.Language.{byte-no_nil, pending-next, Some, Reads, empty_reads_nil, empty_no_byte}
use qwanto.Grammar.Bounds.{IsNormal, IsSettled}
use qwanto.Grammar.Walker.{skips-byte}

get_or-or_bits :
    (xs ys : Class) (b : ℕ)
    → get_or (or_bits xs ys) b false ≡ (get_or xs b false || get_or ys b false)
unfolding or_bits
get_or-or_bits [] ys b = refl
get_or-or_bits (x ∷ xs) [] b = ground arith
get_or-or_bits (x ∷ xs) (y ∷ ys) zero = refl
get_or-or_bits (x ∷ xs) (y ∷ ys) (suc b) = get_or-or_bits xs ys b

get_or-replicate : (n b : ℕ) → get_or (replicate n false) b false ≡ false
get_or-replicate zero b = refl
get_or-replicate (suc n) zero = refl
get_or-replicate (suc n) (suc b) = get_or-replicate n b

none_set : (xs : Class) (b : ℕ) → count_bits xs ≡ 0 → get_or xs b false ≡ true → ⊥
unfolding count_bits
none_set [] b e h = cc
none_set (true ∷ xs) b e h = omega arith
none_set (false ∷ xs) zero e h = cc
none_set (false ∷ xs) (suc b) e h = none_set xs b (omega arith) h

-- Where one bit is set, the search finds it.
first_bit_unique :
    (xs : Class) (b s : ℕ) → count_bits xs ≡ 1 → get_or xs b false ≡ true → first_bit xs s ≡ s + b
unfolding count_bits first_bit
first_bit_unique [] b s e h = cc
first_bit_unique (true ∷ xs) zero s e h = omega arith
first_bit_unique (true ∷ xs) (suc b) s e h = absurd (none_set xs b (omega arith) h)
first_bit_unique (false ∷ xs) zero s e h = cc
first_bit_unique (false ∷ xs) (suc b) s e h =
    omega (arith, first_bit_unique xs b (s + 1) (omega arith) h)

module _ (G : Grammar) where
  class_at-takes : (b : ℕ) (t : Frame) → get_or (class_at G t) b false ≡ takes G b t
  unfolding class_at takes
  class_at-takes b t = ground arith

  -- The class on top of the stack has the byte.
  abbrev pub TopHas : ℕ → Stack → Type 0
  TopHas b [] = ⊥
  TopHas b (t ∷ k) = takes G b t ≡ true

  mask_iff :
      (b : ℕ) (ks : List Stack) (mask : Class)
      → (get_or (mask_of G ks mask).0 b false ≡ true)
        ↔ ((get_or mask b false ≡ true) ⊎ Some (TopHas b) ks)
  unfolding mask_of
  mask_iff b [] mask = grind arith
  mask_iff b ([] ∷ ks) mask = let e = mask_iff b ks mask in grind arith
  mask_iff b ((t ∷ k) ∷ ks) mask =
      let e = mask_iff b ks (or_bits mask (class_at G t)) in
      let both =
        get_or-or_bits mask (class_at G t) b
        ∙ ap (λ z. get_or mask b false || z) (class_at-takes b t) in
      grind arith

module _ (G : Grammar) (narrow : IsNarrow G) where
  end_iff :
      (ks : List Stack) (mask : Class)
      → All (IsNormal G) ks
      → ((mask_of G ks mask).1 ≡ true) ↔ Reads G ks []
  unfolding mask_of
  end_iff [] mask n = (λ e. absurd (true_ne_false (sym e)), λ x. absurd x)
  end_iff ([] ∷ ks) mask n = (λ e. inl (empty_reads_nil G), λ d. refl)
  end_iff ((t ∷ k) ∷ ks) mask n =
      let (f, g) = end_iff ks (or_bits mask (class_at G t)) n.1 in
      let (c, e) = n.0 in
      (
        λ h. inr (f h),
        λ x. elim x [
          | inl d ↦ absurd (byte-no_nil G (rw (pending-next G narrow t k e) at d))
          | inr y ↦ g y
        ],
      )

  -- A byte is in the mask exactly when it is in the class on top of one of the stacks.
  pub admissible-mask :
      (S : State) (b : ℕ) → (get_or (admissible G S).1 b false ≡ true) ↔ Some (TopHas G b) S.st
  unfolding admissible
  admissible-mask S b =
      let e = mask_iff G b S.st (replicate 256 false) in
      let z = get_or-replicate 256 b in
      (
        λ h. elim (e.0 h) [ inl y ↦ absurd (true_ne_false (sym y ∙ z)) | inr y ↦ y ],
        λ y. e.1 (inr y),
      )

  -- In a settled state `can_end` is set exactly when the grammar allows the text to end there.
  pub admissible-can_end :
      (S : State) → IsSettled G S.st → ((admissible G S).2 ≡ true) ↔ Reads G S.st []
  unfolding admissible
  admissible-can_end S n =
      end_iff S.st (replicate 256 false) (All-mono _ (IsNormal G) (λ k p. p.0) S.st n.0)

  starts_in_mask :
      (b : ℕ) (w : List ℕ) (ks : List Stack)
      → All (IsNormal G) ks
      → Reads G ks (b ∷ w)
      → Some (TopHas G b) ks
  starts_in_mask b w [] n d = d
  starts_in_mask b w ([] ∷ ks) n (inl d) = absurd (empty_no_byte G d)
  starts_in_mask b w ((t ∷ k) ∷ ks) n (inl d) = elim (Bool-cases (takes G b t)) [
    | inl h ↦ inl h
    | inr h ↦ absurd (skips-byte G narrow w b t k n.0 h d)
  ]
  starts_in_mask b w (k ∷ ks) n (inr d) = inr (starts_in_mask b w ks n.1 d)

  -- A byte that can come next is in the mask.
  pub admissible_complete :
      (S : State) (b : ℕ) (w : List ℕ)
      → IsSettled G S.st
      → Reads G S.st (b ∷ w)
      → get_or (admissible G S).1 b false ≡ true
  admissible_complete S b w n d =
      (admissible-mask S b).1
        (starts_in_mask b w S.st (All-mono _ (IsNormal G) (λ k p. p.0) S.st n.0) d)

  -- Where one bit is set, it is that of the first byte of whatever can come next.
  pub only_byte :
      (S : State) (b : ℕ) (w : List ℕ)
      → IsSettled G S.st
      → Reads G S.st (b ∷ w)
      → (admissible G S).0 ≡ 1
      → first_bit (admissible G S).1 0 ≡ b
  unfolding admissible
  only_byte S b w n d one =
      omega (arith, first_bit_unique (admissible G S).1 b 0 one (admissible_complete S b w n d))
