-- ===== src/Grammar/Build.antt =====
-- The rules that the parser of c/grammar.h builds, and how it reads names, escapes and white space.
use qwanto.Base.{
  ℕ, zero, suc, ◌+◌, ◌/◌, ◌%◌, ◌||◌, Option, none, some, List, [], ◌∷◌, ◌++◌, length, get_or, set,
  take, drop, ltb, leb, ◌==◌, if◌then◌else◌,
}
use qwanto.Container.Open.{same_bytes}
use qwanto.Grammar.{Sym, ref, Rule, max_rules}

-- The messages in `err`, and `out_of_fuel`, which stands for none of them.
pub data ParseError : Type 0 where
  invalid_escape_in_literal unterminated_literal : ParseError
  invalid_escape_in_class unterminated_class : ParseError
  grammar_too_large nested_too_deeply missing_close unexpected_close too_many_rules : ParseError
  unexpected_character : ℕ → ParseError
  expected_rule : ℕ → ParseError
  expected_definition duplicate_rule never_defined : List ℕ → ParseError
  missing_root out_of_fuel : ParseError

pub data Answer {ℓ} (A : Type ℓ) : Type ℓ where
  ok : A → Answer A
  error : ParseError → Answer A

infixl 5 ◌>>=◌
abbrev pub ◌>>=◌ {ℓ κ} : {A : Type ℓ} {B : Type κ} → Answer A → (A → Answer B) → Answer B
ok a >>= f = f a
error e >>= f = error e

abbrev pub required {ℓ} : {A : Type ℓ} → ParseError → Option A → Answer A
required e none = error e
required e (some a) = ok a

-- A rule without an alternate.
abbrev pub blank : List ℕ → Rule
blank name = record { name = name; alts = [] }

unfoldable pub rule_at : List Rule → ℕ → Rule
rule_at rules ri = get_or rules ri (blank [])

-- The rule with its alternates changed.
unfoldable pub set_alts : List Rule → ℕ → List (List Sym) → List Rule
set_alts rules ri alts = set rules ri (record { name = (rule_at rules ri).name; alts = alts })

-- `gr__alt_new`: the rules, and the index of the new alternate.
unfoldable pub alt_new : List Rule → ℕ → List Rule × ℕ
alt_new rules ri =
    let alts = (rule_at rules ri).alts in (set_alts rules ri (alts ++ ([] ∷ [])), length alts)

unfoldable pub alt_of : List Rule → ℕ → ℕ → List Sym
alt_of rules ri ai = get_or (rule_at rules ri).alts ai []

unfoldable pub set_alt : List Rule → ℕ → ℕ → List Sym → List Rule
set_alt rules ri ai syms = set_alts rules ri (set (rule_at rules ri).alts ai syms)

-- `gr__push`
unfoldable pub push : List Rule → ℕ → ℕ → Sym → List Rule
push rules ri ai sy = set_alt rules ri ai (alt_of rules ri ai ++ (sy ∷ []))

-- The loop of `gr__rule`: the index of the first rule with the name.
unfoldable pub find_rule : List ℕ → List Rule → ℕ → Option ℕ
find_rule name [] i = none
find_rule name (r ∷ rules) i =
    let rest = find_rule name rules (i + 1) in if same_bytes r.name name then some i else rest

-- A new rule at the end.
unfoldable pub add_rule : List Rule → List ℕ → Option (List Rule × ℕ)
add_rule rules name =
    if leb max_rules (length rules) then none else some (rules ++ (blank name ∷ []), length rules)

-- `gr__rule`
unfoldable pub rule_named : List Rule → List ℕ → Option (List Rule × ℕ)
rule_named rules name = elim (find_rule (take 63 name) rules 0) [
  | some i ↦ some (rules, i)
  | none ↦ add_rule rules (take 63 name)
]

-- The decimal digits of a number below `10 ^ n`.
unfoldable pub decimal : ℕ → ℕ → List ℕ
decimal zero i = []
decimal (suc n) i =
    let front = decimal n (i / 10) in
    if ltb i 10 then (48 + i) ∷ [] else front ++ ((48 + i % 10) ∷ [])

-- `gr__anon`
unfoldable pub anon : List Rule → Option (List Rule × ℕ)
anon rules = add_rule rules (36 ∷ decimal 4 (length rules))

abbrev pub push_all : List Rule → ℕ → ℕ → List Sym → List Rule
push_all rules ri ai [] = rules
push_all rules ri ai (sy ∷ syms) = push_all (push rules ri ai sy) ri ai syms

-- The rules of an item `I` with the postfix `op`: `R ::= I R | ""`, and so on.
unfoldable pub repeat_rule : List Rule → ℕ → ℕ → ℕ → List Rule
repeat_rule rules rr ii op =
    let (opened, a0) = alt_new rules rr in
    let once = push opened rr a0 (ref ii) in
    let again = if (op == b'*') || (op == b'+') then push once rr a0 (ref rr) else once in
    let (closed, a1) = alt_new again rr in if op == b'+' then push closed rr a1 (ref ii) else closed

-- `gr__postfix`, on the symbols of the alternate from `n0` on.
unfoldable pub postfix : List Rule → ℕ → ℕ → ℕ → ℕ → Answer (List Rule)
postfix rules ri ai n0 op =
    let syms = alt_of rules ri ai in
    if leb (length syms) n0 then ok rules else do
      (with_item, ii) ← required grammar_too_large (anon rules)
      let (opened, ia) = alt_new with_item ii
      let moved = push_all opened ii ia (drop n0 syms)
      let cut = set_alt moved ri ai (take n0 syms)
      (with_rule, rr) ← required grammar_too_large (anon cut)
      ok (push (repeat_rule with_rule rr ii op) ri ai (ref rr))
