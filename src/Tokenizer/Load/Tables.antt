-- ===== src/Tokenizer/Load/Tables.antt =====
-- The maps and the array of strings that c/tok.h builds.
use qwanto.Base.{
  some_eq, ℕ, suc, ◌<◌, ◌≤◌, ◌≡◌, ◌≢◌, inl, inr, Bool, true, false, Option, none, some, List, [],
  ◌∷◌, ◌++◌, length, map, set, replicate, ltb, if◌then◌else◌, All, arith, refl, sym, ap, subst, ◌∙◌,
  Bool-cases, slot, slot-set, slot-set_other, length-replicate, length-set,
}
use mathlib.Core.List.{Memᴰ}
use mathlib.Core.List.Memᴰ.{head, tail}
use qwanto.Container.Open.{same_bytes}
use qwanto.Container.Find.Names.{same_bytes-eq, same_bytes_refl}
use qwanto.Tokenizer.Load.{Source, ranked, max_id, Strings, write_ids, strings}
use qwanto.Tokenizer.HashMap.Filled.{last_value}

pub last_value-Memᴰ :
    (xs : List (List ℕ × ℕ)) (q : List ℕ) (v : ℕ) → last_value xs q ≡ some v → Memᴰ (q, v) xs
unfolding last_value
last_value-Memᴰ [] q v e = cc
last_value-Memᴰ (x ∷ xs) q v e = go (λ w f. last_value-Memᴰ xs q w f) (last_value xs q) refl e
  where
    go :
        ((w : ℕ) → last_value xs q ≡ some w → Memᴰ (q, w) xs)
        → (o : Option ℕ) → last_value xs q ≡ o
        → (elim o [ some w ↦ some w | none ↦ if same_bytes x.0 q then some x.1 else none ]) ≡ some v
        → Memᴰ (q, v) (x ∷ xs)
    go rest (some w) f g = tail (rest v (f ∙ g))
    go rest none f g = elim (Bool-cases (same_bytes x.0 q)) [
      | inl h ↦
          let value : some x.1 ≡ some v = ground (arith, g, h) in
          head (
            ap (λ z. (z, v)) (sym (same_bytes-eq x.0 q h))
            ∙ ap (λ z. (x.0, z)) (sym (some_eq value)))
      | inr h ↦ ground (arith, g, h)
    ]

-- Every key of the list has a value.
pub last_value-some :
    (xs : List (List ℕ × ℕ)) (x : List ℕ × ℕ) → Memᴰ x xs → (v : ℕ) × (last_value xs x.0 ≡ some v)
unfolding last_value
last_value-some [] x h = elim h [ ]
last_value-some (y ∷ xs) x (head e) = go (last_value xs x.0)
  where
    go :
        (o : Option ℕ)
        → (v : ℕ) × ((elim o [
          | some w ↦ some w
          | none ↦ if same_bytes y.0 x.0 then some y.1 else none
        ])
            ≡ some v)
    go (some w) = (w, refl)
    go none =
        let same : same_bytes y.0 x.0 ≡ true =
          ap (λ z. same_bytes y.0 z.0) e ∙ same_bytes_refl y.0 in
        (y.1, rw (same) refl)
last_value-some (y ∷ xs) x (tail h) = go (last_value xs x.0) (last_value-some xs x h)
  where
    go :
        (o : Option ℕ)
        → (v : ℕ) × (o ≡ some v)
        → (v : ℕ) × ((elim o [
          | some w ↦ some w
          | none ↦ if same_bytes y.0 x.0 then some y.1 else none
        ])
            ≡ some v)
    go (some w) h = (w, refl)
    go none h = let no_value = h.1 in cc

-- A text is found behind its place in the merges.
pub ranked-Memᴰ :
    (i : ℕ) (ms : List (List ℕ × List ℕ)) (q : List ℕ) (r : ℕ)
    → Memᴰ (q, r) (ranked i ms)
    → (x : List ℕ × List ℕ) × (Memᴰ x ms) × (q ≡ x.0 ++ (0 ∷ x.1))
unfolding ranked
ranked-Memᴰ i [] q r h = elim h [ ]
ranked-Memᴰ i (m ∷ ms) q r (head e) = (m, head refl, ap (λ z. z.0) e)
ranked-Memᴰ i (m ∷ ms) q r (tail h) = let (x, a, b) = ranked-Memᴰ (suc i) ms q r h in (x, tail a, b)

-- No id twice.
unfoldable pub Distinct : List ℕ → Type 0
Distinct [] = Unit
Distinct (x ∷ xs) = All (λ y. x ≢ y) xs × Distinct xs

abbrev pub ids : List (List ℕ × ℕ) → List ℕ
ids xs = map (λ (x : List ℕ × ℕ). x.1) xs

-- A write of other ids leaves an entry.
write_ids_other :
    (b : Bool) (xs : List (List ℕ × ℕ)) (t : Strings) (id : ℕ)
    → All (λ y. id ≢ y) (ids xs)
    → slot (write_ids b xs t) id ≡ slot t id
unfolding write_ids
write_ids_other b [] t id h = refl
write_ids_other b (x ∷ xs) t id h =
    write_ids_other b xs (set t x.1 (some (x.0, b))) id h.1 ∙ slot-set_other t x.1 id _ h.0

write_ids-length :
    (b : Bool) (xs : List (List ℕ × ℕ)) (t : Strings) → length (write_ids b xs t) ≡ length t
unfolding write_ids
write_ids-length b [] t = refl
write_ids-length b (x ∷ xs) t =
    write_ids-length b xs (set t x.1 (some (x.0, b))) ∙ length-set t x.1 (some (x.0, b))

-- The ids of a list are below a bound.
abbrev pub Below : ℕ → List (List ℕ × ℕ) → Type 0
Below n xs = All (λ y. y < n) (ids xs)

write_ids_own :
    (b : Bool) (xs : List (List ℕ × ℕ)) (t : Strings) (x : List ℕ × ℕ)
    → Distinct (ids xs)
    → Below (length t) xs
    → Memᴰ x xs
    → slot (write_ids b xs t) x.1 ≡ some (x.0, b)
unfolding write_ids Distinct
write_ids_own b [] t x d lt h = elim h [ ]
write_ids_own b (y ∷ xs) t x d lt (head e) =
    write_ids_other b xs (set t y.1 (some (y.0, b))) x.1
      (subst (λ z. All (λ w. z.1 ≢ w) (ids xs)) (sym e) d.0)
    ∙ ap (λ z. slot (set t y.1 (some (y.0, b))) z.1) e
    ∙ slot-set t y.1 y.1 (y.0, b) lt.0
    ∙ ground arith
    ∙ ap (λ z. some (z.0, b)) (sym e)
write_ids_own b (y ∷ xs) t x d lt (tail h) =
    write_ids_own b xs (set t y.1 (some (y.0, b))) x d.1
      (subst (λ n. Below n xs) (sym (length-set t y.1 (some (y.0, b)))) lt.1) h

max_id-le : (xs : List (List ℕ × ℕ)) (m : ℕ) → m ≤ max_id xs m
unfolding max_id
max_id-le [] m = omega arith
max_id-le (x ∷ xs) m =
    let step : m ≤ (if ltb m x.1 then x.1 else m) = ground arith in
    omega (arith, step, max_id-le xs (if ltb m x.1 then x.1 else m))

max_id-Below : (xs : List (List ℕ × ℕ)) (m n : ℕ) → max_id xs m < n → Below n xs
unfolding max_id
max_id-Below [] m n h = tt
max_id-Below (x ∷ xs) m n h =
    let step : x.1 ≤ (if ltb m x.1 then x.1 else m) = ground arith in
    (omega (arith, step, h, max_id-le xs (if ltb m x.1 then x.1 else m)), max_id-Below xs _ n h)

pub All-Mem : {A : Type 0} (P : A → Type 0) (xs : List A) (x : A) → All P xs → Memᴰ x xs → P x
All-Mem P [] x h i = elim i [ ]
All-Mem P (y ∷ xs) x h (head e) = subst P (sym e) h.0
All-Mem P (y ∷ xs) x h (tail i) = All-Mem P xs x h.1 i

ids-Mem : (xs : List (List ℕ × ℕ)) (x : List ℕ × ℕ) → Memᴰ x xs → Memᴰ x.1 (ids xs)
ids-Mem [] x h = elim h [ ]
ids-Mem (y ∷ xs) x (head e) = head (ap (λ z. z.1) e)
ids-Mem (y ∷ xs) x (tail h) = tail (ids-Mem xs x h)

-- The ids of the document are all different.
pub record Apart (S : Source) : Type 0 where
  pub vocab : Distinct (ids S.vocab)
  pub added : Distinct (ids S.added)
  pub both : All (λ x. All (λ y. x ≢ y) (ids S.added)) (ids S.vocab)

module _ (S : Source) (apart : Apart S) where
  abbrev room : ℕ
  room = suc (max_id S.added (max_id S.vocab 0))

  abbrev words : Strings
  words = write_ids false S.vocab (replicate room none)

  words-length : length words ≡ room
  words-length = write_ids-length false S.vocab (replicate room none) ∙ length-replicate room none

  pub strings-vocab : (x : List ℕ × ℕ) → Memᴰ x S.vocab → slot (strings S) x.1 ≡ some (x.0, false)
  unfolding strings
  strings-vocab x h =
      let below : Below room S.vocab =
        max_id-Below S.vocab 0 room (omega (arith, max_id-le S.added (max_id S.vocab 0))) in
      write_ids_other true S.added words x.1 (
        All-Mem (λ i. All (λ y. i ≢ y) (ids S.added)) (ids S.vocab) x.1 apart.both
          (ids-Mem S.vocab x h))
      ∙ write_ids_own false S.vocab (replicate room none) x apart.vocab
          (subst (λ n. Below n S.vocab) (sym (length-replicate room none)) below) h

  pub strings-added : (x : List ℕ × ℕ) → Memᴰ x S.added → slot (strings S) x.1 ≡ some (x.0, true)
  unfolding strings
  strings-added x h =
      let below : Below room S.added = max_id-Below S.added (max_id S.vocab 0) room (omega arith) in
      write_ids_own true S.added words x apart.added
        (subst (λ n. Below n S.added) (sym words-length) below) h
