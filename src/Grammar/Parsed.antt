-- ===== src/Grammar/Parsed.antt =====
-- The items of `gr__alts`: what the loop's body makes of the rules and leaves of the text.
use qwanto.Base.{
  ℕ, suc, ◌≤◌, ◌<◌, Bool, false, not, ◌&&◌, ◌||◌, List, [], ◌∷◌, length, ◌==◌, if◌then◌else◌, arith,
}
use qwanto.Grammar.{ref, Rule}
use qwanto.Grammar.Build.{
  grammar_too_large, missing_close, too_many_rules, Answer, ok, error, required, alt_of, push,
  rule_named, anon, postfix,
}
use qwanto.Grammar.Parse.{defines, Item, stop, next, with_postfix, named_item, group_item}
use qwanto.Grammar.Lex.{ws}
use qwanto.Grammar.Built.{
  IsBuilt, Extends, Extends-refl, Extends-then, push-Extends, rule_named-Names, anon-Names, Ends,
  Ends->>=, Ends-if, Ends-mono, required-Ends,
}
use qwanto.Grammar.Repeats.{postfix-Ends}
use qwanto.Grammar.Lexed.{ws-length}

-- The rules are extended, and at most `n` bytes are left, one more where the loop ends there.
abbrev pub IsItem : List Rule → ℕ → Item → Type 0
IsItem rules n (stop rules' q) = Extends rules rules' × (length q ≤ suc n)
IsItem rules n (next rules' q) = Extends rules rules' × (length q ≤ n)

-- The rules are extended, and at most `n` bytes are left.
abbrev pub Leaves : List Rule → ℕ → List Rule × List ℕ → Type 0
Leaves rules n x = Extends rules x.0 × (length x.1 ≤ n)

IsItem-then :
    {a b : List Rule} {n m : ℕ} (i : Item) → Extends a b → n ≤ m → IsItem b n i → IsItem a m i
IsItem-then (stop rules q) k h x = (Extends-then k x.0, omega (arith, x.1))
IsItem-then (next rules q) k h x = (Extends-then k x.0, omega (arith, x.1))

with_postfix-Ends :
    (ri ai n0 : ℕ) (rules : List Rule) (p : List ℕ)
    → IsBuilt rules
    → Ends (IsItem rules (length p)) (with_postfix ri ai n0 rules p)
unfolding with_postfix
with_postfix-Ends ri ai n0 rules [] h = (Extends-refl rules h, omega arith)
with_postfix-Ends ri ai n0 rules (c ∷ p) h =
    Ends-if (IsItem rules (suc (length p))) ((c == b'?') || (c == b'*') || (c == b'+')) _
      (ok (next rules (c ∷ p)))
      (λ t.
        Ends->>= (Extends rules) _ (postfix rules ri ai n0 c) _ (postfix-Ends rules ri ai n0 c h)
          λ rules' k. (k, omega arith))
      (λ t. (Extends-refl rules h, omega arith))

-- An item that has been read, and its postfix.
pub with_postfix-ws-Ends :
    (rules rules' : List Rule) (ri ai n0 n : ℕ) (q : List ℕ)
    → Extends rules rules'
    → length q ≤ n
    → Ends (IsItem rules n) (with_postfix ri ai n0 rules' (ws false q))
with_postfix-ws-Ends rules rules' ri ai n0 n q k h =
    Ends-mono (IsItem rules' (length (ws false q))) (IsItem rules n)
      (with_postfix ri ai n0 rules' (ws false q))
      (λ i x. IsItem-then i k (omega (arith, ws-length false q, h)) x)
      (with_postfix-Ends ri ai n0 rules' (ws false q) k.built)

pub named_item-Ends :
    (rules : List Rule) (ri ai : ℕ) (in_group : Bool) (name rest p : List ℕ) (n : ℕ)
    → IsBuilt rules
    → length rest ≤ n
    → length p ≤ suc n
    → Ends (IsItem rules n) (named_item rules ri ai in_group name rest p)
unfolding named_item
named_item-Ends rules ri ai in_group name rest p n h less fits =
    Ends-if (IsItem rules n) (not in_group && defines rest) (ok (stop rules p)) _
      (λ t. (Extends-refl rules h, fits))
      (λ t.
        Ends->>= _ (IsItem rules n) (required too_many_rules (rule_named rules name)) _
          (required-Ends rules too_many_rules (rule_named rules name) (λ e. cc)
            (rule_named-Names rules name h))
          λ x found.
            with_postfix-ws-Ends rules _ ri ai _ n rest
              (Extends-then found.0 (push-Extends x.0 ri ai (ref x.1) found.0.built found.1)) less)

-- What the recursive call does on a text of at most `n` bytes.
abbrev pub Enters : ℕ → (List Rule → ℕ → List ℕ → Answer (List Rule × List ℕ)) → Type 0
Enters n enter =
    (rules : List Rule) (gi : ℕ) (q : List ℕ)
    → IsBuilt rules
    → length q ≤ n
    → Ends (Leaves rules (length q)) (enter rules gi q)

pub group_item-Ends :
    (enter : List Rule → ℕ → List ℕ → Answer (List Rule × List ℕ)) (rules : List Rule) (ri ai : ℕ)
    (p : List ℕ)
    → Enters (length p) enter
    → IsBuilt rules
    → Ends (IsItem rules (length p)) (group_item enter rules ri ai p)
unfolding group_item
group_item-Ends enter rules ri ai p g h =
    Ends->>= _ (IsItem rules (length p)) (required grammar_too_large (anon rules)) _
      (required-Ends rules grammar_too_large (anon rules) (λ e. cc) (anon-Names rules h))
      λ x found.
        Ends->>= (Leaves x.0 (length p)) (IsItem rules (length p)) (enter x.0 x.1 p) _
          (g x.0 x.1 p found.0.built (omega arith))
          λ y filled. closes x y found.0 found.1 filled (ws false y.1) (ws-length false y.1)
  where
    closes :
        (x : List Rule × ℕ) (y : List Rule × List ℕ)
        → Extends rules x.0
        → x.1 < length x.0
        → Leaves x.0 (length p) y
        → (q : List ℕ) → length q ≤ length y.1
        → Ends (IsItem rules (length p)) (elim q [
          | [] ↦ error missing_close
          | c ∷ rest ↦
              if c == b')'
              then with_postfix ri ai
                  (length (alt_of rules ri ai))
                  (push y.0 ri ai (ref x.1))
                  (ws false rest)
              else error missing_close
        ])
    closes x y k below filled [] less = λ e. cc
    closes x y k below filled (c ∷ rest) less =
        Ends-if (IsItem rules (length p)) (c == b')') _ (error missing_close)
          (λ t.
            with_postfix-ws-Ends rules _ ri ai _ (length p) rest
              (Extends-then (Extends-then k filled.0) (
                push-Extends y.0 ri ai (ref x.1) filled.0.built
                  (omega (arith, below, filled.0.grows))))
              (omega (arith, less, filled.1)))
          (λ t e. cc)
