-- ===== src/Grammar/Repeats.antt =====
-- What `gr__postfix` makes of the rules.
use qwanto.Base.{
  ℕ, ◌<◌, inl, inr, Bool, true, false, ◌||◌, List, [], ◌∷◌, length, take, drop, leb, ◌==◌,
  if◌then◌else◌, arith, Bool-cases, All, All-mono, All-take, All-drop,
}
use qwanto.Grammar.{Sym, ref, Rule}
use qwanto.Grammar.Build.{
  alt_new, alt_of, set_alt, push, anon, push_all, repeat_rule, postfix, ok, grammar_too_large,
  required, ◌>>=◌,
}
use qwanto.Grammar.Built.{
  IsSym, IsBuilt, Extends, Extends-refl, Extends-then, IsSym-mono, alt_of-IsSym, alt_new-Extends,
  set_alt-Extends, push-Extends, anon-Names, Ends, Ends->>=, required-Ends,
}

push_all-Extends :
    (rules : List Rule) (ri ai : ℕ) (syms : List Sym)
    → IsBuilt rules
    → All (IsSym (length rules)) syms
    → Extends rules (push_all rules ri ai syms)
push_all-Extends rules ri ai [] h p = Extends-refl rules h
push_all-Extends rules ri ai (sy ∷ syms) h p =
    let q = push-Extends rules ri ai sy h p.0 in
    Extends-then q (
      push_all-Extends (push rules ri ai sy) ri ai syms q.built (
        All-mono (IsSym (length rules)) (IsSym (length (push rules ri ai sy)))
          (IsSym-mono (length rules) (length (push rules ri ai sy)) q.grows) syms p.1))

repeat_rule-Extends :
    (rules : List Rule) (rr ii op : ℕ)
    → IsBuilt rules
    → rr < length rules
    → ii < length rules
    → Extends rules (repeat_rule rules rr ii op)
unfolding repeat_rule
repeat_rule-Extends rules rr ii op h r i =
    let opened : List Rule = (alt_new rules rr).0 in
    let a0 : ℕ = (alt_new rules rr).1 in
    let p1 = alt_new-Extends rules rr h in
    let once : List Rule = push opened rr a0 (ref ii) in
    let p2 = push-Extends opened rr a0 (ref ii) p1.built (omega arith) in
    let p3 = push-Extends once rr a0 (ref rr) p2.built (omega arith) in
    let t : Bool = (op == b'*') || (op == b'+') in
    let again : List Rule = if t then push once rr a0 (ref rr) else once in
    let p4 : Extends once again = either t p3 (Extends-refl once p2.built) in
    let p5 = alt_new-Extends again rr p4.built in
    let closed : List Rule = (alt_new again rr).0 in
    let p6 = push-Extends closed rr (alt_new again rr).1 (ref ii) p5.built (omega arith) in
    Extends-then p1 (
      Extends-then p2
        (Extends-then p4 (Extends-then p5 (either (op == b'+') p6 (Extends-refl closed p5.built)))))
  where
    either :
        {a b c : List Rule} (t : Bool) → Extends a b → Extends a c → Extends a (if t then b else c)
    either true p q = p
    either false p q = q

pub postfix-Ends :
    (rules : List Rule) (ri ai n0 op : ℕ)
    → IsBuilt rules
    → Ends (Extends rules) (postfix rules ri ai n0 op)
unfolding postfix
postfix-Ends rules ri ai n0 op h = elim (Bool-cases (leb (length (alt_of rules ri ai)) n0)) [
  | inl empty ↦ rw (empty, postfix) (Extends-refl rules h)
  | inr some_symbol ↦
      rw (some_symbol, postfix)
        (Ends->>= _ (Extends rules) (required grammar_too_large (anon rules)) _
          (required-Ends rules grammar_too_large (anon rules) (λ e. cc) (anon-Names rules h))
          λ x found. after_item x.0 x.1 found.0 found.1)
]
  where
    syms : List Sym
    syms = alt_of rules ri ai

    lifted :
        (rules' : List Rule) (ys : List Sym)
        → Extends rules rules'
        → All (IsSym (length rules)) ys
        → All (IsSym (length rules')) ys
    lifted rules' ys k p =
        All-mono (IsSym (length rules)) (IsSym (length rules'))
          (IsSym-mono (length rules) (length rules') k.grows) ys p

    after_item :
        (with_item : List Rule) (ii : ℕ)
        → Extends rules with_item
        → ii < length with_item
        → Ends (Extends rules) (
            let opened : List Rule = (alt_new with_item ii).0 in
            let moved : List Rule = push_all opened ii (alt_new with_item ii).1 (drop n0 syms) in
            let cut : List Rule = set_alt moved ri ai (take n0 syms) in
            required grammar_too_large (anon cut) >>= λ y.
            ok (push (repeat_rule y.0 y.1 ii op) ri ai (ref y.1)))
    after_item with_item ii k below =
        let opened : List Rule = (alt_new with_item ii).0 in
        let moved : List Rule = push_all opened ii (alt_new with_item ii).1 (drop n0 syms) in
        let cut : List Rule = set_alt moved ri ai (take n0 syms) in
        let all_syms = alt_of-IsSym rules ri ai h in
        let l1 = alt_new-Extends with_item ii k.built in
        let k1 = Extends-then k l1 in
        let l2 =
          push_all-Extends opened ii (alt_new with_item ii).1 (drop n0 syms) k1.built
            (lifted opened (drop n0 syms) k1 (All-drop _ n0 syms all_syms)) in
        let k2 = Extends-then k1 l2 in
        let l3 =
          set_alt-Extends moved ri ai (take n0 syms) k2.built
            (lifted moved (take n0 syms) k2 (All-take _ n0 syms all_syms)) in
        let k3 = Extends-then k2 l3 in
        Ends->>= _ (Extends rules) (required grammar_too_large (anon cut)) _
          (required-Ends cut grammar_too_large (anon cut) (λ e. cc) (anon-Names cut k3.built))
          λ y found.
            let r =
              repeat_rule-Extends y.0 y.1 ii op found.0.built found.1
                (omega (arith, l1.grows, l2.grows, l3.grows, found.0.grows)) in
            Extends-then (Extends-then k3 (Extends-then found.0 r)) (
              push-Extends (repeat_rule y.0 y.1 ii op) ri ai (ref y.1) r.built
                (omega (arith, found.1, r.grows)))
