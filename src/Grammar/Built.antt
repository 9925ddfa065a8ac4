-- ===== src/Grammar/Built.antt =====
-- What the parser of c/grammar.h keeps while it builds the rules.
use qwanto.Base.{
  ℕ, ◌+◌, ◌≤◌, ◌<◌, ◌≡◌, inl, inr, Bool, true, false, Option, none, some, List, [], ◌∷◌, length,
  take, leb, if◌then◌else◌, arith, refl, Bool-cases, Option-cases, All, All-mono, All-snoc, All-set,
  get_or-All, length-set, length-append,
}
use qwanto.Container.Open.{same_bytes}
use qwanto.Grammar.{Sym, cls, ref, Rule, max_rules}
use qwanto.Grammar.Build.{
  blank, rule_at, set_alts, alt_new, alt_of, set_alt, push, find_rule, add_rule, rule_named, anon,
  Answer, ok, error, ParseError, out_of_fuel, required, ◌>>=◌,
}

-- A class is its 256 bits, and a reference is to one of the first `n` rules.
abbrev pub IsSym : ℕ → Sym → Type 0
IsSym n (cls c) = length c ≡ 256
IsSym n (ref r) = r < n

abbrev pub IsRule : ℕ → Rule → Type 0
IsRule n r = All (All (IsSym n)) r.alts

-- Every symbol is right, and the rules fit their array.
abbrev pub IsBuilt : List Rule → Type 0
IsBuilt rules = All (IsRule (length rules)) rules × (length rules ≤ max_rules)

-- The rules are right, and none has gone.
pub record Extends (rules rules' : List Rule) : Type 0 where
  pub built : IsBuilt rules'
  pub grows : length rules ≤ length rules'

pub Extends-refl : (rules : List Rule) → IsBuilt rules → Extends rules rules
Extends-refl rules h = record { built = h; grows = omega arith }

pub Extends-then : {a b c : List Rule} → Extends a b → Extends b c → Extends a c
Extends-then h k = record { built = k.built; grows = omega arith }

pub IsSym-mono : (n m : ℕ) → n ≤ m → (y : Sym) → IsSym n y → IsSym m y
IsSym-mono n m h (cls c) p = p
IsSym-mono n m h (ref r) p = omega arith

IsRule-mono : (n m : ℕ) → n ≤ m → (r : Rule) → IsRule n r → IsRule m r
IsRule-mono n m h r p =
    All-mono (All (IsSym n)) (All (IsSym m)) (All-mono (IsSym n) (IsSym m) (IsSym-mono n m h))
      r.alts p

rule_at-IsRule :
    (rules : List Rule) (ri : ℕ) → IsBuilt rules → IsRule (length rules) (rule_at rules ri)
unfolding rule_at
rule_at-IsRule rules ri h = get_or-All (IsRule (length rules)) rules ri (blank []) h.0 tt

pub alt_of-IsSym :
    (rules : List Rule) (ri ai : ℕ)
    → IsBuilt rules
    → All (IsSym (length rules)) (alt_of rules ri ai)
unfolding alt_of
alt_of-IsSym rules ri ai h =
    get_or-All (All (IsSym (length rules))) (rule_at rules ri).alts ai []
      (rule_at-IsRule rules ri h) tt

set_alts-length :
    (rules : List Rule) (ri : ℕ) (alts : List (List Sym))
    → length (set_alts rules ri alts) ≡ length rules
unfolding set_alts
set_alts-length rules ri alts = length-set rules ri _

set_alts-Extends :
    (rules : List Rule) (ri : ℕ) (alts : List (List Sym))
    → IsBuilt rules
    → All (All (IsSym (length rules))) alts
    → Extends rules (set_alts rules ri alts)
unfolding set_alts
set_alts-Extends rules ri alts h p = record {
  built =
      rw (length-set rules ri fresh) (All-set (IsRule (length rules)) rules ri fresh h.0 p, h.1);
  grows = omega (arith, length-set rules ri fresh);
}
  where
    fresh : Rule
    fresh = record { name = (rule_at rules ri).name; alts = alts }

pub alt_new-Extends :
    (rules : List Rule) (ri : ℕ) → IsBuilt rules → Extends rules (alt_new rules ri).0
unfolding alt_new
alt_new-Extends rules ri h = set_alts-Extends rules ri _ h (
    All-snoc (All (IsSym (length rules))) (rule_at rules ri).alts [] (rule_at-IsRule rules ri h) tt)

pub set_alt-Extends :
    (rules : List Rule) (ri ai : ℕ) (syms : List Sym)
    → IsBuilt rules
    → All (IsSym (length rules)) syms
    → Extends rules (set_alt rules ri ai syms)
unfolding set_alt
set_alt-Extends rules ri ai syms h p = set_alts-Extends rules ri _ h (
    All-set (All (IsSym (length rules))) (rule_at rules ri).alts ai syms (rule_at-IsRule rules ri h)
      p)

pub push-Extends :
    (rules : List Rule) (ri ai : ℕ) (sy : Sym)
    → IsBuilt rules
    → IsSym (length rules) sy
    → Extends rules (push rules ri ai sy)
unfolding push
push-Extends rules ri ai sy h p =
    set_alt-Extends rules ri ai _ h
      (All-snoc (IsSym (length rules)) (alt_of rules ri ai) sy (alt_of-IsSym rules ri ai h) p)

-- A new rule, or one that is there: its index is in range.
abbrev pub Names : List Rule → Option (List Rule × ℕ) → Type 0
Names rules none = Unit
Names rules (some (rules', i)) = Extends rules rules' × (i < length rules')

add_rule-Names :
    (rules : List Rule) (name : List ℕ) → IsBuilt rules → Names rules (add_rule rules name)
unfolding add_rule
add_rule-Names rules name h = elim (Bool-cases (leb max_rules (length rules))) [
  | inl full ↦ rw (full, add_rule) tt
  | inr room ↦
      rw (room, add_rule)
        (
          record {
            built = rw (length-append rules (blank name ∷ [])) (
              All-snoc (IsRule (length rules + 1)) rules (blank name)
                  (All-mono _ _ (IsRule-mono (length rules) (length rules + 1) (omega arith)) rules
                    h.0)
                  tt,
              ground arith,
            );
            grows = omega (arith, length-append rules (blank name ∷ []));
          },
          omega (arith, length-append rules (blank name ∷ [])),
        )
]

find_rule-lt :
    (name : List ℕ) (rules : List Rule) (s : ℕ) {i : ℕ}
    → find_rule name rules s ≡ some i
    → i < s + length rules
unfolding find_rule
find_rule-lt name [] s e = cc
find_rule-lt name (r ∷ rules) s e = elim (Bool-cases (same_bytes r.name name)) [
  | inl h ↦ ground (arith, e, h)
  | inr h ↦ omega (arith, find_rule-lt name rules (s + 1) (rw h at e))
]

pub rule_named-Names :
    (rules : List Rule) (name : List ℕ) → IsBuilt rules → Names rules (rule_named rules name)
unfolding rule_named
rule_named-Names rules name h = elim (Option-cases (find_rule (take 63 name) rules 0)) [
  | inl e ↦ rw (e, rule_named) (add_rule-Names rules (take 63 name) h)
  | inr x ↦
      let (i, e) = x in
      rw (e, rule_named)
        (Extends-refl rules h, omega (arith, find_rule-lt (take 63 name) rules 0 e))
]

pub anon-Names : (rules : List Rule) → IsBuilt rules → Names rules (anon rules)
unfolding anon
anon-Names rules h = add_rule-Names rules _ h

-- A result, of which `P` holds, or an error of the parser, and not the end of the fuel.
abbrev pub Ends {ℓ} : {A : Type ℓ} → (A → Type 0) → Answer A → Type 0
Ends P (ok a) = P a
Ends P (error e) = ¬ (e ≡ out_of_fuel)

pub Ends->>= {ℓ ℓ'} :
    {A : Type ℓ} {B : Type ℓ'} (P : A → Type 0) (Q : B → Type 0) (m : Answer A) (f : A → Answer B)
    → Ends P m
    → ((a : A) → P a → Ends Q (f a))
    → Ends Q (m >>= f)
Ends->>= P Q (ok a) f h k = k a h
Ends->>= P Q (error e) f h k = h

pub Ends-if {ℓ} :
    {A : Type ℓ} (P : A → Type 0) (t : Bool) (m k : Answer A)
    → (t ≡ true → Ends P m)
    → (t ≡ false → Ends P k)
    → Ends P (if t then m else k)
Ends-if P true m k f g = f refl
Ends-if P false m k f g = g refl

pub Ends-mono {ℓ} :
    {A : Type ℓ} (P Q : A → Type 0) (m : Answer A) → ((a : A) → P a → Q a) → Ends P m → Ends Q m
Ends-mono P Q (ok a) f h = f a h
Ends-mono P Q (error e) f h = h

-- A rule that may be missing, for a reason that is not the fuel.
pub required-Ends :
    (rules : List Rule) (e : ParseError) (o : Option (List Rule × ℕ))
    → ¬ (e ≡ out_of_fuel)
    → Names rules o
    → Ends (λ x. Extends rules x.0 × (x.1 < length x.0)) (required e o)
required-Ends rules e none n h = n
required-Ends rules e (some (rules', i)) n h = h
