-- ===== src/Grammar/Language.antt =====
-- What a grammar generates: the words of a list of symbols, and of the stacks of the walker.
use qwanto.Base.{
  ℕ, zero, suc, ◌+◌, ◌%◌, ◌^◌, ◌<◌, ◌≡◌, ◌↔◌, ◌⊎◌, inl, inr, Bool, true, false, none, some, List,
  [], ◌∷◌, ◌++◌, length, get_or, get_elem?, get_elem?-lt, drop, some_eq, arith, refl, sym, ap, ◌∙◌,
  subst, Bool-cases, ◌&&◌,
}
use qwanto.Grammar.{Sym, cls, ref, Grammar, IsNarrow, Frame, Stack, alts_of, alt_at, sym_at}
use qwanto.Grammar.Walk.{bump, entered, same_frame, same_stack, holds}

-- `Matches G ys w`: the symbols derive the word, the leftmost one being rewritten first.
pub data Matches (G : Grammar) : List Sym → List ℕ → Type 0 where
  done : Matches G [] []
  byte :
      (c : List Bool) (b : ℕ) (ys : List Sym) (w : List ℕ)
      → get_or c b false ≡ true
      → Matches G ys w
      → Matches G (cls c ∷ ys) (b ∷ w)
  rule :
      (r a : ℕ) (ys : List Sym) (w : List ℕ)
      → a < length (alts_of G r)
      → Matches G (alt_at G r a ++ ys) w
      → Matches G (ref r ∷ ys) w

-- The symbols that a stack has still to read.
unfoldable pub pending : Grammar → Stack → List Sym
pending G [] = []
pending G (t ∷ k) = drop t.s (alt_at G t.r t.a) ++ pending G k

-- One of the stacks has the property.
abbrev pub Some : (Stack → Type 0) → List Stack → Type 0
Some P [] = ⊥
Some P (k ∷ ks) = P k ⊎ Some P ks

-- What the walker may still read from its stacks.
abbrev pub Reads : Grammar → List Stack → List ℕ → Type 0
Reads G ks w = Some (λ k. Matches G (pending G k) w) ks

module _ (G : Grammar) where
  nil_no_byte : {b : ℕ} {w : List ℕ} → ¬ Matches G [] (b ∷ w)
  nil_no_byte d = elim d [ ]

  pub byte_inv :
      {c : List Bool} {b : ℕ} {ys : List Sym} {w : List ℕ}
      → Matches G (cls c ∷ ys) (b ∷ w)
      → (get_or c b false ≡ true) × Matches G ys w
  byte_inv (byte c b ys w h d) = (h, d)

  pub byte-no_nil : {c : List Bool} {ys : List Sym} → ¬ Matches G (cls c ∷ ys) []
  byte-no_nil d = elim d [ ]

  pub rule_inv :
      {r : ℕ} {ys : List Sym} {w : List ℕ}
      → Matches G (ref r ∷ ys) w
      → (a : ℕ) × (a < length (alts_of G r)) × Matches G (alt_at G r a ++ ys) w
  rule_inv (rule r a ys w h d) = (a, h, d)

-- A frame at the end of its alternate has nothing to read.
drop-none {ℓ} : {A : Type ℓ} (n : ℕ) (xs : List A) → get_elem? xs n ≡ none → drop n xs ≡ []
drop-none zero [] e = refl
drop-none zero (x ∷ xs) e = cc
drop-none (suc n) [] e = refl
drop-none (suc n) (x ∷ xs) e = drop-none n xs e

drop-some {ℓ} :
    {A : Type ℓ} (n : ℕ) (xs : List A) {y : A}
    → get_elem? xs n ≡ some y
    → drop n xs ≡ y ∷ drop (suc n) xs
drop-some n [] e = cc
drop-some zero (x ∷ xs) e = ap (λ z. z ∷ xs) (some_eq e)
drop-some (suc n) (x ∷ xs) e = drop-some n xs e

module _ (G : Grammar) where
  pub pending-used : (t : Frame) (k : Stack) → sym_at G t ≡ none → pending G (t ∷ k) ≡ pending G k
  unfolding pending sym_at
  pending-used t k e = rw (drop-none t.s (alt_at G t.r t.a) e)

  -- The position behind a symbol fits int16_t.
  pub pending-next :
      IsNarrow G
      → (t : Frame) (k : Stack) {y : Sym} → sym_at G t ≡ some y
      → pending G (t ∷ k) ≡ y ∷ pending G (bump t ∷ k)
  unfolding pending sym_at
  pending-next narrow t k {y} e =
      ap (λ ys. ys ++ pending G k)
        (drop-some t.s (alt_at G t.r t.a) e ∙ ap (λ n. y ∷ drop n (alt_at G t.r t.a)) one)
    where
      one : suc t.s ≡ (t.s + 1) % 2 ^ 16
      one = omega (arith, get_elem?-lt t.s (alt_at G t.r t.a) e, narrow.symbols t.r t.a)

  pub pending-start :
      (r a : ℕ) (k : Stack) → a < 2 ^ 15 → pending G (entered r a ∷ k) ≡ alt_at G r a ++ pending G k
  unfolding pending
  pending-start r a k lt =
      let kept : a % 2 ^ 16 ≡ a = omega arith in ap (λ i. alt_at G r i ++ pending G k) kept

and_true : (a b : Bool) → (a && b) ≡ true → (a ≡ true) × (b ≡ true)
and_true true b e = (refl, e)
and_true false b e = cc

-- The properties of stacks that the walker adds to its set.
module _ (P : Stack → Type 0) where
  pub Some-append : (ks : List Stack) (k : Stack) → Some P (ks ++ (k ∷ [])) ↔ (Some P ks ⊎ P k)
  Some-append [] k = grind arith
  Some-append (x ∷ ks) k = let (f, g) = Some-append ks k in grind arith

  same_frame-eq : (x y : Frame) → same_frame x y ≡ true → x ≡ y
  unfolding same_frame
  same_frame-eq x y e = ground arith

  same_stack-eq : (xs ys : Stack) → same_stack xs ys ≡ true → xs ≡ ys
  unfolding same_stack
  same_stack-eq [] [] e = refl
  same_stack-eq [] (y ∷ ys) e = cc
  same_stack-eq (x ∷ xs) [] e = cc
  same_stack-eq (x ∷ xs) (y ∷ ys) e =
      let (h, t) = and_true (same_frame x y) (same_stack xs ys) e in
      rw (same_frame-eq x y h, same_stack-eq xs ys t)

  pub holds-Some : (k : Stack) (ks : List Stack) → holds k ks ≡ true → P k → Some P ks
  unfolding holds
  holds-Some k [] e p = cc
  holds-Some k (x ∷ ks) e p = elim (Bool-cases (same_stack x k)) [
    | inl h ↦ inl (subst P (sym (same_stack-eq x k h)) p)
    | inr h ↦ inr (holds-Some k ks (rw h at e) p)
  ]

module _ (G : Grammar) where
  pub empty_no_byte : {b : ℕ} {w : List ℕ} → ¬ Matches G (pending G []) (b ∷ w)
  unfolding pending
  empty_no_byte d = nil_no_byte G d

  pub empty_reads_nil : Matches G (pending G []) []
  unfolding pending
  empty_reads_nil = done
