-- ===== src/Grammar/Accepted.antt =====
-- The loops of `gr__alts` and `gr_parse`, their fuel and the rules that they leave.
use qwanto.Base.{
  ℕ, zero, suc, ◌+◌, ◌≤◌, ◌<◌, ◌≡◌, inl, inr, Bool, true, false, Option, none, some, List, [], ◌∷◌,
  length, ltb, ◌==◌, if◌then◌else◌, arith, refl, Bool-cases,
}
use qwanto.Grammar.{cls, Rule}
use qwanto.Grammar.Build.{
  nested_too_deeply, missing_close, unexpected_close, too_many_rules, unexpected_character,
  expected_rule, expected_definition, duplicate_rule, Answer, ok, error, ◌>>=◌, required, rule_at,
  alt_new, alt_of, rule_named,
}
use qwanto.Grammar.Parse.{after_define, Item, stop, next, item, alternates, definition, definitions}
use qwanto.Grammar.Lex.{ws, idch, identifier, literal, class_of}
use qwanto.Grammar.Built.{
  IsBuilt, Extends-refl, Extends-then, push-Extends, alt_new-Extends, rule_named-Names, Ends,
  Ends->>=, Ends-if, Ends-mono, required-Ends,
}
use qwanto.Grammar.Lexed.{
  ws-length, identifier-length, identifier-taken, literal-Ends, class_of-LeavesClass,
  after_define-length,
}
use qwanto.Grammar.Parsed.{
  IsItem, Leaves, Enters, with_postfix-ws-Ends, named_item-Ends, group_item-Ends,
}

item-Ends :
    (n : ℕ) (enter : List Rule → ℕ → List ℕ → Answer (List Rule × List ℕ)) (rules : List Rule)
    (ri ai : ℕ) (in_group : Bool) (c : ℕ) (p : List ℕ)
    → length p < n
    → Enters (length p) enter
    → IsBuilt rules
    → Ends (IsItem rules (length p)) (item n enter rules ri ai in_group c p)
unfolding item
item-Ends n enter rules ri ai in_group c p enough g h =
    Ends-if P (c == 34) _ _
      (λ t.
        Ends->>= (Leaves rules (length p)) P (literal n rules ri ai p) _
          (literal-Ends n rules ri ai p enough h)
          λ x k. with_postfix-ws-Ends rules x.0 ri ai n0 (length p) x.1 k.0 k.1)
      λ t.
        Ends-if P (c == b'[') _ _
          (λ t. Ends->>= _ P (class_of n p) _ (class_of-LeavesClass n p enough) λ x k.
            with_postfix-ws-Ends rules _ ri ai n0 (length p) x.1
              (push-Extends rules ri ai (cls x.0) h k.0) k.1)
          λ t.
            Ends-if P (c == b'(') _ _ (λ t. group_item-Ends enter rules ri ai p g h)
              λ t.
                Ends-if P (idch c) _ (error (unexpected_character c))
                  (λ t.
                    named_item-Ends rules ri ai in_group (identifier (c ∷ p)).0
                      (identifier (c ∷ p)).1 (c ∷ p) (length p) h (identifier-taken c p t)
                      (omega arith))
                  (λ t e. cc)
  where
    n0 : ℕ
    n0 = length (alt_of rules ri ai)

    P : Item → Type 0
    P = IsItem rules (length p)

-- The loop of `gr__alts` with this fuel.
abbrev AltsEnd : ℕ → Type 0
AltsEnd n =
    (rules : List Rule) (ri ai depth : ℕ) (in_group : Bool) (p : List ℕ)
    → length p < n
    → IsBuilt rules
    → Ends (Leaves rules (length p)) (alternates n rules ri ai depth in_group p)

-- A call on the rules with a new alternate.
opened_then :
    (rules : List Rule) (ri n : ℕ) (m : Answer (List Rule × List ℕ))
    → IsBuilt rules
    → Ends (Leaves (alt_new rules ri).0 n) m
    → Ends (Leaves rules n) m
opened_then rules ri n m h k =
    Ends-mono (Leaves (alt_new rules ri).0 n) (Leaves rules n) m
      (λ x y. (Extends-then (alt_new-Extends rules ri h) y.0, y.1)) k

-- The recursive call of `gr__alts`.
enter_group : ℕ → ℕ → List Rule → ℕ → List ℕ → Answer (List Rule × List ℕ)
enter_group n depth rules gi q =
    if ltb 32 (depth + 1)
    then error nested_too_deeply
    else alternates n (alt_new rules gi).0 gi (alt_new rules gi).1 (depth + 1) true q

enter_group-Enters : (n depth m : ℕ) → AltsEnd n → m < n → Enters m (enter_group n depth)
unfolding enter_group
enter_group-Enters n depth m ih less rules gi q h fits =
    Ends-if (Leaves rules (length q)) (ltb 32 (depth + 1)) (error nested_too_deeply) _ (λ t e. cc)
      λ t. opened_then rules gi (length q) _ h (
        ih (alt_new rules gi).0 gi (alt_new rules gi).1 (depth + 1) true q (omega arith)
          (alt_new-Extends rules gi h).built)

alternates-Ends : (n : ℕ) → AltsEnd n
unfolding alternates enter_group
alternates-Ends zero rules ri ai depth in_group p enough h = elim enough [ ]
alternates-Ends (suc n) rules ri ai depth in_group p enough h =
    turn (alternates-Ends n) (ws false p) (ws-length false p)
  where
    P : List Rule × List ℕ → Type 0
    P = Leaves rules (length p)

    goes_on :
        AltsEnd n
        → (q : List ℕ) → length q < length p
        → (i : Item) → IsItem rules (length q) i
        → Ends P (elim i [
          | stop rules' r ↦ ok (rules', r)
          | next rules' r ↦ alternates n rules' ri ai depth in_group r
        ])
    goes_on ih q less (stop rules' r) k = (k.0, omega (arith, k.1))
    goes_on ih q less (next rules' r) k =
        Ends-mono (Leaves rules' (length r)) P (alternates n rules' ri ai depth in_group r)
          (λ x y. (Extends-then k.0 y.0, omega (arith, k.1, y.1)))
          (ih rules' ri ai depth in_group r (omega (arith, k.1)) k.0.built)

    turn :
        AltsEnd n
        → (q : List ℕ) → length q ≤ length p
        → Ends P (elim q [
          | [] ↦ if in_group then error missing_close else ok (rules, [])
          | c ∷ q ↦
              if c == b')'
              then (if in_group then ok (rules, c ∷ q) else error unexpected_close)
              else elim (c == b'|') [
                | true ↦ alternates n (alt_new rules ri).0 ri (alt_new rules ri).1 depth in_group q
                | false ↦ do
                  found ← item n (enter_group n depth) rules ri ai in_group c q
                  elim found [
                    | stop rules' r ↦ ok (rules', r)
                    | next rules' r ↦ alternates n rules' ri ai depth in_group r
                  ]
              ]
        ])
    turn ih [] less =
        Ends-if P in_group (error missing_close) (ok (rules, [])) (λ t e. cc)
          (λ t. (Extends-refl rules h, omega arith))
    turn ih (c ∷ q) less =
        Ends-if P (c == b')') _ _
          (λ t.
            Ends-if P in_group (ok (rules, c ∷ q)) (error unexpected_close)
              (λ t. (Extends-refl rules h, less)) (λ t e. cc))
          (λ t. elim (Bool-cases (c == b'|')) [
            | inl bar ↦ rw bar (
                Ends-mono (Leaves rules (length q)) P _ (λ x y. (y.0, omega (arith, y.1)))
                  (opened_then rules ri (length q) _ h (
                    ih (alt_new rules ri).0 ri (alt_new rules ri).1 depth in_group q (omega arith)
                      (alt_new-Extends rules ri h).built)))
            | inr other ↦ rw other (
                Ends->>= (IsItem rules (length q)) P
                  (item n (enter_group n depth) rules ri ai in_group c q) _
                  (item-Ends n (enter_group n depth) rules ri ai in_group c q (omega arith)
                    (enter_group-Enters n depth (length q) ih (omega arith)) h)
                  (goes_on ih q (omega arith)))
          ])

definition-Ends :
    (n : ℕ) (rules : List Rule) (c : ℕ) (p : List ℕ)
    → length p < n
    → IsBuilt rules
    → Ends (Leaves rules (length p)) (definition n rules c p)
unfolding definition
definition-Ends n rules c p enough h =
    Ends-if P (length name == 0) (error (expected_rule c)) _ (λ t e. cc)
      λ named.
        Ends->>= (λ q. length q ≤ length rest) P
          (required (expected_definition name) (after_define (ws false rest))) _
          (defined (after_define (ws false rest)) refl)
          λ q less.
            Ends->>= _ P (required too_many_rules (rule_named rules name)) _
              (required-Ends rules too_many_rules (rule_named rules name) (λ e. cc)
                (rule_named-Names rules name h))
              λ x found.
                Ends-if P (ltb 0 (length (rule_at x.0 x.1).alts)) (error (duplicate_rule name)) _
                  (λ t e. cc)
                  λ t.
                    let shorter : length rest ≤ length p =
                      ground (arith, identifier-length (c ∷ p), named) in
                    Ends-mono (Leaves (alt_new x.0 x.1).0 (length q)) P
                      (alternates n (alt_new x.0 x.1).0 x.1 (alt_new x.0 x.1).1 0 false q)
                      (λ y k. (
                        Extends-then found.0
                            (Extends-then (alt_new-Extends x.0 x.1 found.0.built) k.0),
                        omega (arith, k.1, less, shorter),
                      ))
                      (alternates-Ends n (alt_new x.0 x.1).0 x.1 (alt_new x.0 x.1).1 0 false q
                        (omega (arith, less, shorter))
                        (alt_new-Extends x.0 x.1 found.0.built).built)
  where
    P : List Rule × List ℕ → Type 0
    P = Leaves rules (length p)

    name : List ℕ
    name = (identifier (c ∷ p)).0

    rest : List ℕ
    rest = (identifier (c ∷ p)).1

    defined :
        (o : Option (List ℕ))
        → after_define (ws false rest) ≡ o
        → Ends (λ q. length q ≤ length rest) (required (expected_definition name) o)
    defined none e = λ x. cc
    defined (some q) e = omega (arith, after_define-length (ws false rest) e, ws-length false rest)

pub definitions-Ends :
    (n : ℕ) (rules : List Rule) (p : List ℕ)
    → length p < n
    → IsBuilt rules
    → Ends IsBuilt (definitions n rules p)
unfolding definitions
definitions-Ends zero rules p enough h = elim enough [ ]
definitions-Ends (suc n) rules p enough h =
    turn (λ rules' q less k. definitions-Ends n rules' q less k) (ws false p) (ws-length false p)
  where
    turn :
        ((rules' : List Rule) (q : List ℕ)
          → length q < n
          → IsBuilt rules'
          → Ends IsBuilt (definitions n rules' q))
        → (q : List ℕ) → length q ≤ length p
        → Ends IsBuilt (elim q [
          | [] ↦ ok rules
          | c ∷ q ↦ definition n rules c q >>= λ x. definitions n x.0 x.1
        ])
    turn ih [] less = h
    turn ih (c ∷ q) less =
        Ends->>= (Leaves rules (length q)) IsBuilt (definition n rules c q) _
          (definition-Ends n rules c q (omega arith) h)
          λ x k. ih x.0 x.1 (omega (arith, k.1)) k.0.built
