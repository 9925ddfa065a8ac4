-- ===== src/Tokenizer/HashMap/Filled.antt =====
-- The hash map of c/tok.h, filled from a list.
use qwanto.Base.{
  ℕ, ◌+◌, ◌<◌, ◌≡◌, inl, inr, Option, none, some, List, [], ◌∷◌, length, if◌then◌else◌, arith, refl,
  sym, ap, ◌∙◌, Bool-cases, used, slot-replicate, used-replicate, length-replicate,
}
use qwanto.Container.Open.{same_bytes}
use qwanto.Shards.Table.{capacity}
use qwanto.Shards.Table.Finds.{capacity-le}
use qwanto.Tokenizer.HashMap.{HMap, tk_fnv, hm_init, hm_put, hm_get, put_all, map_of}
use qwanto.Tokenizer.HashMap.Seeks.{seek_total, get_from-seek, entry_value}
use qwanto.Tokenizer.HashMap.Lookups.{home, IsMap, hm_put-Changed}

-- The value of the last pair with the key.
unfoldable pub last_value : List (List ℕ × ℕ) → List ℕ → Option ℕ
last_value [] q = none
last_value (x ∷ xs) q = elim (last_value xs q) [
  | some v ↦ some v
  | none ↦ if same_bytes x.0 q then some x.1 else none
]

put_all-some :
    (m : HMap) (x : List ℕ × ℕ) (xs : List (List ℕ × ℕ)) (more : HMap)
    → hm_put m x.0 x.1 ≡ some more
    → put_all m (x ∷ xs) ≡ put_all more xs
unfolding put_all
put_all-some m x xs more e = rw (put_all, e) refl

-- What a map gives, over one that gives `rest`.
unfoldable over : Option ℕ → Option (Option ℕ) → Option (Option ℕ)
over none rest = rest
over (some v) rest = some (some v)

over-last_value :
    (x : List ℕ × ℕ) (xs : List (List ℕ × ℕ)) (q : List ℕ) (rest : Option (Option ℕ))
    → over (last_value xs q) (if same_bytes x.0 q then some (some x.1) else rest)
      ≡ over (last_value (x ∷ xs) q) rest
unfolding over last_value
over-last_value x xs q rest = go (last_value xs q)
  where
    go :
        (o : Option ℕ)
        → over o (if same_bytes x.0 q then some (some x.1) else rest)
          ≡ over
              (elim o [ some v ↦ some v | none ↦ if same_bytes x.0 q then some x.1 else none ])
              rest
    go (some v) = refl
    go none = elim (Bool-cases (same_bytes x.0 q)) [ inl f ↦ rw (f) refl | inr f ↦ rw (f) refl ]

put_all-last_value :
    (xs : List (List ℕ × ℕ)) (m : HMap)
    → IsMap m
    → used m + length xs < length m
    → (after : HMap) × (put_all m xs ≡ some after)
      × ((q : List ℕ) → hm_get after q ≡ over (last_value xs q) (hm_get m q))
unfolding put_all over last_value
put_all-last_value [] m map room = (m, refl, λ q. refl)
put_all-last_value (x ∷ xs) m map room =
    let c = hm_put-Changed m x.0 x.1 map (omega (arith, room)) in
    let (after, is, gets) =
      put_all-last_value xs c.after c.map (omega (arith, room, c.size, c.count)) in
    (
      after,
      put_all-some m x xs c.after c.is ∙ is,
      λ q. gets q ∙ ap (over (last_value xs q)) (c.gets q) ∙ over-last_value x xs q (hm_get m q),
    )

init-IsMap : (n : ℕ) → 0 < n → IsMap (hm_init n)
unfolding hm_init
init-IsMap n h = record {
  room =
      omega (
        arith,
        h,
        used-replicate (List ℕ × ℕ) n,
        length-replicate {A = Option (List ℕ × ℕ)} n none,
      );
  stands = λ s k v e. let no_entry = sym (slot-replicate n s) ∙ e in cc;
}

hm_get-init : (n : ℕ) (q : List ℕ) → 0 < n → hm_get (hm_init n) q ≡ some none
unfolding hm_init hm_get entry_value
hm_get-init n q h =
    let m = hm_init n in
    let (s, e) = seek_total m (tk_fnv q) q (init-IsMap n h).room in
    get_from-seek (length m) m (home m q) q s e
    ∙ ap (λ o. some (entry_value o)) (slot-replicate n s)

init_sizes : (n : ℕ) → (used (hm_init n) ≡ 0) × (length (hm_init n) ≡ n)
unfolding hm_init
init_sizes n = (used-replicate (List ℕ × ℕ) n, length-replicate n none)

over-none : (o : Option ℕ) → over o (some none) ≡ some o
unfolding over
over-none none = refl
over-none (some v) = refl

-- hm_put places every pair of a list in a map of the capacity of tok_load_memory, and hm_get finds each key
-- with the value of its last pair, and no other key; all their loops end.
pub map_of-last_value :
    (xs : List (List ℕ × ℕ))
    → (m : HMap) × (map_of xs ≡ some m) × ((q : List ℕ) → hm_get m q ≡ some (last_value xs q))
unfolding map_of over
map_of-last_value xs =
    let n = capacity (length xs) in
    let big = capacity-le (length xs) in
    let init = init-IsMap n (omega (arith, big)) in
    let (m, is, gets) =
      put_all-last_value xs (hm_init n) init
        (omega (arith, big, (init_sizes n).0, (init_sizes n).1)) in
    (
      m,
      is,
      λ q.
          gets q
          ∙ ap (over (last_value xs q)) (hm_get-init n q (omega (arith, big)))
          ∙ over-none (last_value xs q),
    )
