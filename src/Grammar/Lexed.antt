-- ===== src/Grammar/Lexed.antt =====
-- How much of the text the small parsers of c/grammar.h leave.
use qwanto.Base.{
  ℕ, zero, suc, ◌+◌, ◌-◌, ◌≤◌, ◌<◌, ◌≡◌, inl, inr, Bool, true, false, not, ◌&&◌, ◌||◌, some, List,
  [], ◌∷◌, length, map, set, ◌==◌, arith, refl, ap, Bool-cases, Option-cases, length-set,
}
use qwanto.Grammar.{Class, cls, Rule}
use qwanto.Grammar.Build.{
  ParseError, invalid_escape_in_literal, invalid_escape_in_class, out_of_fuel, Answer, ok, required,
  push,
}
use qwanto.Grammar.Parse.{after_define}
use qwanto.Grammar.Lex.{
  ws, idch, identifier, hex_pair, esc, char, literal, set_range, set_between, upper, class_bits,
  class_of, empty_class,
}
use qwanto.Grammar.Built.{
  IsBuilt, Extends, Extends-refl, Extends-then, push-Extends, Ends, Ends->>=, Ends-if, Ends-mono,
}

-- The white space of `gr__ws`.
abbrev blank_byte : ℕ → Bool
blank_byte c = (c == 32) || (c == 9) || (c == 13) || (c == 10)

pub ws-length : (comment : Bool) (p : List ℕ) → length (ws comment p) ≤ length p
unfolding ws
ws-length comment [] = ground arith
ws-length true (c ∷ p) = elim (Bool-cases (c == 10)) [
  | inl e ↦ rw (e, ws) (omega (arith, ws-length false p))
  | inr e ↦ rw (e, ws) (omega (arith, ws-length true p))
]
ws-length false (c ∷ p) = elim (Bool-cases (blank_byte c)) [
  | inl e ↦ rw (e, ws) (omega (arith, ws-length false p))
  | inr e ↦ elim (Bool-cases (c == b'#')) [
    | inl h ↦ rw (e, h, ws) (omega (arith, ws-length true p))
    | inr h ↦ rw (e, h, ws) (omega arith)
  ]
]

pub identifier-length : (p : List ℕ) → length (identifier p).0 + length (identifier p).1 ≡ length p
unfolding identifier
identifier-length [] = omega arith
identifier-length (c ∷ p) = ground (arith, identifier-length p)

pub identifier-taken :
    (c : ℕ) (p : List ℕ) → idch c ≡ true → length (identifier (c ∷ p)).1 ≤ length p
unfolding identifier
identifier-taken c p t = rw (t, identifier) (omega (arith, identifier-length p))

-- A byte has been read, and at most the text given is left.
abbrev pub Leaves : ℕ → Answer (ℕ × List ℕ) → Type 0
Leaves n r = Ends (λ x. length x.1 ≤ n) r

hex_pair-length : (p : List ℕ) {x : ℕ × List ℕ} → hex_pair p ≡ some x → length x.1 ≤ length p
unfolding hex_pair
hex_pair-length [] e = cc
hex_pair-length (c ∷ []) e = cc
hex_pair-length (c ∷ d ∷ p) e = ground arith

esc-length : (p : List ℕ) {x : ℕ × List ℕ} → esc p ≡ some x → length x.1 ≤ length p
unfolding esc hex_pair
esc-length [] e = cc
esc-length (c ∷ p) e = ground (arith, hex_pair-length p)

char-Leaves :
    (e : ParseError) (c : ℕ) (p : List ℕ) → ¬ (e ≡ out_of_fuel) → Leaves (length p) (char e c p)
unfolding char
char-Leaves e c p n =
    Ends-if (λ x. length x.1 ≤ length p) (c == 92) (required e (esc p)) (ok (c, p))
      (λ escaped. elim (Option-cases (esc p)) [
        | inl h ↦ rw h n
        | inr x ↦ let (y, h) = x in rw h (esc-length p h)
      ])
      (λ plain. omega arith)

pub literal-Ends :
    (n : ℕ) (rules : List Rule) (ri ai : ℕ) (p : List ℕ)
    → length p < n
    → IsBuilt rules
    → Ends (λ x. Extends rules x.0 × (length x.1 ≤ length p)) (literal n rules ri ai p)
unfolding literal
literal-Ends zero rules ri ai p h g = elim h [ ]
literal-Ends (suc n) rules ri ai [] h g = λ e. cc
literal-Ends (suc n) rules ri ai (c ∷ p) h g = elim (Bool-cases (c == 34)) [
  | inl e ↦ rw (e, literal) (Extends-refl rules g, omega arith)
  | inr e ↦
      rw (e, literal)
        (Ends->>= (λ x. length x.1 ≤ length p) _ (char invalid_escape_in_literal c p) _
          (char-Leaves invalid_escape_in_literal c p λ e. cc)
          λ x shorter.
            let k =
              push-Extends rules ri ai (cls (set empty_class x.0 true)) g
                (omega (arith, length-set empty_class x.0 true)) in
            Ends-mono _ _ (literal n (push rules ri ai (cls (set empty_class x.0 true))) ri ai x.1)
              (λ y found. (Extends-then k found.0, omega (arith, shorter, found.1)))
              (literal-Ends n _ ri ai x.1 (omega arith) k.built))
]

length-set_range : (n b : ℕ) (c : Class) → length (set_range n b c) ≡ length c
unfolding set_range
length-set_range zero b c = refl
length-set_range (suc n) b c =
    omega (arith, length-set_range n (b + 1) (set c b true), length-set c b true)

length-set_between : (lo hi : ℕ) (c : Class) → length (set_between lo hi c) ≡ length c
unfolding set_between
length-set_between lo hi c =
    ground (arith, length-set_range (lo - hi + 1) hi c, length-set_range (hi - lo + 1) lo c)

upper-Leaves : (lo : ℕ) (p : List ℕ) → Leaves (length p) (upper lo p)
unfolding upper
upper-Leaves lo [] = omega arith
upper-Leaves lo (c ∷ []) = omega arith
upper-Leaves lo (c ∷ d ∷ p) =
    Ends-if (λ x. length x.1 ≤ length (c ∷ d ∷ p)) ((c == b'-') && not (d == b']'))
      (char invalid_escape_in_class d p) (ok (lo, c ∷ d ∷ p))
      (λ t.
        Ends-mono _ _ (char invalid_escape_in_class d p) (λ x h. omega arith)
          (char-Leaves invalid_escape_in_class d p λ e. cc))
      (λ t. omega arith)

-- A class of 256 bits, and at most the text given is left.
abbrev LeavesClass : ℕ → Answer (Class × List ℕ) → Type 0
LeavesClass n r = Ends (λ x. (length x.0 ≡ 256) × (length x.1 ≤ n)) r

class_bits-LeavesClass :
    (n : ℕ) (bits : Class) (p : List ℕ)
    → length p < n
    → length bits ≡ 256
    → LeavesClass (length p) (class_bits n bits p)
unfolding class_bits
class_bits-LeavesClass zero bits p h e = elim h [ ]
class_bits-LeavesClass (suc n) bits [] h e = λ e. cc
class_bits-LeavesClass (suc n) bits (c ∷ p) h e = elim (Bool-cases (c == b']')) [
  | inl t ↦ rw (t, class_bits) (e, omega arith)
  | inr t ↦
      rw (t, class_bits)
        (Ends->>= (λ x. length x.1 ≤ length p) _ (char invalid_escape_in_class c p) _
          (char-Leaves invalid_escape_in_class c p λ e. cc)
          λ x shorter.
            Ends->>= (λ y. length y.1 ≤ length x.1) _ (upper x.0 x.1) _ (upper-Leaves x.0 x.1)
              λ y shorter'.
                Ends-mono _ _ (class_bits n (set_between x.0 y.0 bits) y.1)
                  (λ z found. (found.0, omega (arith, found.1)))
                  (class_bits-LeavesClass n (set_between x.0 y.0 bits) y.1 (omega arith)
                    (omega (arith, length-set_between x.0 y.0 bits))))
]

length-map : (f : Bool → Bool) (xs : List Bool) → length (map f xs) ≡ length xs
length-map f [] = refl
length-map f (x ∷ xs) = ap suc (length-map f xs)

pub class_of-LeavesClass :
    (n : ℕ) (p : List ℕ) → length p < n → LeavesClass (length p) (class_of n p)
unfolding class_of
class_of-LeavesClass n [] h = λ e. cc
class_of-LeavesClass n (c ∷ p) h =
    Ends-if (λ x. (length x.0 ≡ 256) × (length x.1 ≤ suc (length p))) (c == b'^') _
      (class_bits n empty_class (c ∷ p))
      (λ t.
        Ends->>= (λ x. (length x.0 ≡ 256) × (length x.1 ≤ length p)) _ (class_bits n empty_class p)
          _ (class_bits-LeavesClass n empty_class p (omega arith) refl)
          λ x found. (omega (arith, found.0, length-map not x.0), omega (arith, found.1)))
      (λ t. class_bits-LeavesClass n empty_class (c ∷ p) h refl)

pub after_define-length : (p : List ℕ) {q : List ℕ} → after_define p ≡ some q → length q ≤ length p
unfolding after_define
after_define-length [] e = cc
after_define-length (c ∷ []) e = cc
after_define-length (c ∷ d ∷ []) e = cc
after_define-length (c ∷ d ∷ x ∷ p) e = ground arith
