-- ===== src/Grammar/Parse.antt =====
-- The GBNF parser of c/grammar.h, up to `gr_parse`. A text is its bytes before the NUL.
use qwanto.Base.{
  ℕ, zero, suc, ◌+◌, Bool, true, false, not, ◌&&◌, ◌||◌, Option, none, some, List, [], ◌∷◌, length,
  ltb, ◌==◌, if◌then◌else◌, codes, c_string,
}
use qwanto.Container.Open.{same_bytes}
use qwanto.Grammar.{cls, ref, Rule, Grammar}
use qwanto.Grammar.Build.{
  grammar_too_large, nested_too_deeply, missing_close, unexpected_close, too_many_rules,
  unexpected_character, expected_rule, expected_definition, duplicate_rule, never_defined,
  missing_root, out_of_fuel, Answer, ok, error, ◌>>=◌, required, rule_at, alt_new, alt_of, push,
  rule_named, anon, postfix,
}
use qwanto.Grammar.Lex.{ws, idch, identifier, literal, class_of}

-- `strncmp(p, "::=", 3)`: the text after it.
unfoldable pub after_define : List ℕ → Option (List ℕ)
after_define (c ∷ d ∷ e ∷ p) = if (c == b':') && (d == b':') && (e == b'=') then some p else none
after_define p = none

abbrev pub defines : List ℕ → Bool
defines p = elim (after_define (ws false p)) [ none ↦ false | some q ↦ true ]

-- Where the body of the loop of `gr__alts` breaks, and where it goes on.
pub data Item : Type 0 where
  stop : List Rule → List ℕ → Item
  next : List Rule → List ℕ → Item

-- The end of the body, after an item: its postfix, if there is one.
unfoldable pub with_postfix : ℕ → ℕ → ℕ → List Rule → List ℕ → Answer Item
with_postfix ri ai n0 rules [] = ok (next rules [])
with_postfix ri ai n0 rules (c ∷ p) =
    if (c == b'?') || (c == b'*') || (c == b'+')
    then (do rules' ← postfix rules ri ai n0 c; ok (next rules' p))
    else ok (next rules (c ∷ p))

-- A reference to a rule by its name, or the end before the next rule's definition.
unfoldable pub named_item : List Rule → ℕ → ℕ → Bool → List ℕ → List ℕ → List ℕ → Answer Item
named_item rules ri ai in_group name rest p =
    if not in_group && defines rest then ok (stop rules p) else (do
      (with_rule, r) ← required too_many_rules (rule_named rules name)
      with_postfix ri ai (length (alt_of rules ri ai)) (push with_rule ri ai (ref r))
          (ws false rest))

-- A group after its opening bracket, `enter` being the recursive call.
unfoldable pub group_item :
    (List Rule → ℕ → List ℕ → Answer (List Rule × List ℕ))
    → List Rule
    → ℕ
    → ℕ
    → List ℕ
    → Answer Item
group_item enter rules ri ai p = do
  (opened, gi) ← required grammar_too_large (anon rules)
  (filled, q) ← enter opened gi p
  elim (ws false q) [
    | [] ↦ error missing_close
    | c ∷ rest ↦
        if c == b')'
        then with_postfix ri ai (length (alt_of rules ri ai)) (push filled ri ai (ref gi))
            (ws false rest)
        else error missing_close
  ]

-- An item that starts with the byte `c`.
unfoldable pub item :
    ℕ
    → (List Rule → ℕ → List ℕ → Answer (List Rule × List ℕ))
    → List Rule
    → ℕ
    → ℕ
    → Bool
    → ℕ
    → List ℕ
    → Answer Item
item n enter rules ri ai in_group c p =
    let n0 = length (alt_of rules ri ai) in
    let (name, rest) = identifier (c ∷ p) in
    if c == 34
    then (do (rules', q) ← literal n rules ri ai p; with_postfix ri ai n0 rules' (ws false q))
    else if c == b'['
    then (do
      (bits, q) ← class_of n p
      with_postfix ri ai n0 (push rules ri ai (cls bits)) (ws false q))
    else if c == b'('
    then group_item enter rules ri ai p
    else if idch c
    then named_item rules ri ai in_group name rest (c ∷ p)
    else error (unexpected_character c)

-- The loop of `gr__alts` on alternate `ai` of rule `ri`; each turn reads a byte at least.
unfoldable pub alternates : ℕ → List Rule → ℕ → ℕ → ℕ → Bool → List ℕ → Answer (List Rule × List ℕ)
alternates zero rules ri ai depth in_group p = error out_of_fuel
alternates (suc n) rules ri ai depth in_group p =
    let enter : List Rule → ℕ → List ℕ → Answer (List Rule × List ℕ) = λ rules gi q.
      let (opened, gai) = alt_new rules gi in
      if ltb 32 (depth + 1)
      then error nested_too_deeply
      else alternates n opened gi gai (depth + 1) true q in
    elim (ws false p) [
      | [] ↦ if in_group then error missing_close else ok (rules, [])
      | c ∷ q ↦
          if c == b')'
          then (if in_group then ok (rules, c ∷ q) else error unexpected_close)
          else elim (c == b'|') [
            | true ↦
                let (opened, ai') = alt_new rules ri in alternates n opened ri ai' depth in_group q
            | false ↦ do
              found ← item n enter rules ri ai in_group c q
              elim found [
                | stop rules' r ↦ ok (rules', r)
                | next rules' r ↦ alternates n rules' ri ai depth in_group r
              ]
          ]
    ]

-- A rule of `gr_parse`: its name, `::=` and its alternates.
unfoldable pub definition : ℕ → List Rule → ℕ → List ℕ → Answer (List Rule × List ℕ)
definition n rules c p =
    let (name, rest) = identifier (c ∷ p) in
    if length name == 0 then error (expected_rule c) else (do
      q ← required (expected_definition name) (after_define (ws false rest))
      (with_rule, ri) ← required too_many_rules (rule_named rules name)
      if ltb 0 (length (rule_at with_rule ri).alts)
          then error (duplicate_rule name)
          else (let (opened, ai) = alt_new with_rule ri in alternates n opened ri ai 0 false q))

-- The loop of `gr_parse`.
unfoldable pub definitions : ℕ → List Rule → List ℕ → Answer (List Rule)
definitions zero rules p = error out_of_fuel
definitions (suc n) rules p = elim (ws false p) [
  | [] ↦ ok rules
  | c ∷ q ↦ do (rules', r) ← definition n rules c q; definitions n rules' r
]

-- The last loop of `gr_parse`: every rule is defined, and the last one named `root` is the root.
unfoldable pub find_root : List Rule → ℕ → Option ℕ → Answer ℕ
find_root [] i found = required missing_root found
find_root (r ∷ rules) i found =
    let here = if same_bytes r.name (codes "root") then some i else found in
    elim r.alts [ [] ↦ error (never_defined r.name) | a ∷ more ↦ find_root rules (i + 1) here ]

-- `gr_parse`
unfoldable pub gr_parse : List ℕ → Answer Grammar
gr_parse src = do
  let text = c_string src
  rules ← definitions (length text + 2) [] text
  root ← find_root rules 0 none
  ok (record { rules = rules; root = root })
