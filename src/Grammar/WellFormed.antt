-- ===== src/Grammar/WellFormed.antt =====
-- The grammars that `gr_parse` accepts.
use qwanto.Base.{
  ℕ, ◌+◌, ◌<◌, ◌≡◌, Bool, true, false, Option, none, some, List, [], ◌∷◌, length, get_elem?, ◌++◌,
  append_nil, snoc_append, All-snoc, get_elem?-append_left, get_elem?-snoc, get_elem?-All,
  get_or-All, get_or-All_lt, some_eq, length-append, if◌then◌else◌, arith, refl, ap, subst, All,
  codes, c_string,
}
use qwanto.Container.Open.{same_bytes}
use qwanto.Grammar.{Sym, Rule, Grammar}
use qwanto.Grammar.Build.{never_defined, error, blank}
use qwanto.Grammar.Parse.{definitions, find_root, gr_parse}
use qwanto.Grammar.Built.{IsSym, IsRule, IsBuilt, Ends, Ends->>=}
use qwanto.Grammar.{alts_of, alt_at, sym_at}
use qwanto.Grammar.Progress.{IsDefined}
use qwanto.Grammar.Accepted.{definitions-Ends}

-- The rule with the index is named `root`.
abbrev IsRoot : List Rule → ℕ → Type 0
IsRoot rules root =
    (r : Rule) × (get_elem? rules root ≡ some r) × (same_bytes r.name (codes "root") ≡ true)

-- The root is a rule of that name, and every rule has an alternate.
abbrev HasRoot : List Rule → ℕ → Type 0
HasRoot rules root = All (λ r. 0 < length r.alts) rules × IsRoot rules root

find_root-Ends :
    (rules done : List Rule) (found : Option ℕ)
    → ((i : ℕ) → found ≡ some i → IsRoot done i)
    → All (λ r. 0 < length r.alts) done
    → Ends (HasRoot (done ++ rules)) (find_root rules (length done) found)
unfolding find_root
find_root-Ends [] done none h all = λ e. cc
find_root-Ends [] done (some i) h all = subst (λ z. HasRoot z i) (append_nil done) (all, h i refl)
find_root-Ends (r ∷ rules) done found h all = go r.alts refl λ some_alternate.
    subst (λ z. Ends (HasRoot z) (find_root rules (length done + 1) here))
      (snoc_append done rules r)
      (subst (λ z. Ends (HasRoot ((done ++ (r ∷ [])) ++ rules)) (find_root rules z here))
        (length-append done (r ∷ []))
        (find_root-Ends rules (done ++ (r ∷ [])) here here-IsRoot
          (All-snoc (λ x. 0 < length x.alts) done r all some_alternate)))
  where
    here : Option ℕ
    here = if same_bytes r.name (codes "root") then some (length done) else found

    chosen :
        (t : Bool)
        → same_bytes r.name (codes "root") ≡ t
        → (i : ℕ) → (if t then some (length done) else found) ≡ some i
        → IsRoot (done ++ (r ∷ [])) i
    chosen true named i e =
        subst (IsRoot (done ++ (r ∷ []))) (some_eq e) (r, get_elem?-snoc done r, named)
    chosen false named i e =
        let (x, at, name) = h i e in (x, get_elem?-append_left done (r ∷ []) i at, name)

    here-IsRoot : (i : ℕ) → here ≡ some i → IsRoot (done ++ (r ∷ [])) i
    here-IsRoot i e = chosen (same_bytes r.name (codes "root")) refl i e

    go :
        (choices : List (List Sym))
        → r.alts ≡ choices
        → (0 < length r.alts
            → Ends (HasRoot (done ++ (r ∷ rules))) (find_root rules (length done + 1) here))
        → Ends (HasRoot (done ++ (r ∷ rules))) (elim choices [
          | [] ↦ error (never_defined r.name)
          | a ∷ more ↦ find_root rules (length done + 1) here
        ])
    go [] e k = λ x. cc
    go (a ∷ more) e k = k (omega (arith, ap length e))

-- Its rules fit their array; a class has its 256 bits; a reference is to one of the rules, each of which
-- has an alternate; and the root is a rule named `root`.
abbrev pub IsWellFormed : Grammar → Type 0
IsWellFormed G = IsBuilt G.rules × HasRoot G.rules G.root

-- `gr_parse` ends on every text within its fuel, and a grammar that it accepts is well formed.
pub gr_parse-Ends : (src : List ℕ) → Ends IsWellFormed (gr_parse src)
unfolding gr_parse
gr_parse-Ends src =
    Ends->>= IsBuilt IsWellFormed (definitions (length (c_string src) + 2) [] (c_string src)) _
      (definitions-Ends (length (c_string src) + 2) [] (c_string src) (omega arith)
        (tt, ground arith))
      λ rules built.
        Ends->>= (HasRoot rules) IsWellFormed (find_root rules 0 none) _
          (find_root-Ends rules [] none (λ i e. cc) tt) λ root found. (built, found)

pub IsWellFormed-IsDefined : (G : Grammar) → IsWellFormed G → IsDefined G
unfolding alts_of alt_at sym_at
IsWellFormed-IsDefined G h t r e =
    let n = length G.rules in
    let rule = get_or-All (IsRule n) G.rules t.r (blank []) h.0.0 tt in
    let alternate = get_or-All (All (IsSym n)) (alts_of G t.r) t.a [] rule tt in
    let below : r < n = get_elem?-All (IsSym n) (alt_at G t.r t.a) t.s alternate e in
    get_or-All_lt (λ x. 0 < length x.alts) G.rules r (blank []) h.1.0 below
