-- ===== src/Container/Find/Complete.antt =====
-- On an index sorted by hash, `qwn_find` misses no name.
use qwanto.Base.{
  ℕ, zero, suc, ◌+◌, ◌-◌, ◌/◌, ◌<◌, ◌≤◌, ◌≡◌, refl, ◌≢◌, inl, inr, true, Option, none, some, List,
  ltb, ◌==◌, length, arith, Bool-cases, ==_iff, ap, sym, ◌∙◌, dec_lt, none_ne_some,
}
use qwanto.Container.Desc.{TensorDesc}
use qwanto.Container.Model.{Entry}
use qwanto.Container.Find.{
  hash_at, search, desc_named, or_else, scan_down, scan_up, around, find_overflow,
}

-- The order in which the converter writes the overflow index.
abbrev pub IsSorted : List Entry → Type 0
IsSorted es = (i j : ℕ) → i ≤ j → j < length es → hash_at es i ≤ hash_at es j

-- The search ends at an equal hash, if there is one between its ends.
search-finds :
    (es : List Entry) (h k : ℕ)
    → IsSorted es
    → hash_at es k ≡ h
    → (fuel lo end : ℕ) → lo ≤ k
    → k < end
    → end ≤ length es
    → end ≤ lo + fuel
    → (mid : ℕ) × (search es h fuel lo end ≡ some mid) × (hash_at es mid ≡ h) × (mid < length es)
unfolding search
search-finds es h k sorted hk zero lo end a b c d = absurd (omega arith)
search-finds es h k sorted hk (suc fuel) lo end a b c d =
    elim (Bool-cases (ltb (hash_at es mid) h)) [
      | inl low ↦
          rw (in_range, low)
            (search-finds es h k sorted hk fuel (mid + 1) end (ground (arith, sorted k mid)) b c
              (omega arith))
      | inr high ↦ elim (Bool-cases (ltb h (hash_at es mid))) [
        | inl above ↦
            rw (in_range, high, above)
              (search-finds es h k sorted hk fuel lo mid a (ground (arith, sorted mid k))
                (omega arith) (omega arith))
        | inr equal ↦ rw (in_range, high, equal) (mid, refl, ground arith, omega arith)
      ]
    ]
  where
    mid : ℕ
    mid = (lo + end - 1) / 2

    in_range : ltb lo end ≡ true
    in_range = ground arith

-- The scans pass over equal hashes only, so they reach every equal hash next to where they start.
scan_down-finds :
    (es : List Entry) (h : ℕ) (name : List ℕ) (k : ℕ) {t : TensorDesc}
    → desc_named es name k ≡ some t
    → (j : ℕ) → k < j
    → ((i : ℕ) → k ≤ i → i < j → hash_at es i ≡ h)
    → scan_down es h name j ≢ none
unfolding scan_down
scan_down-finds es h name k found zero lt same = elim lt [ ]
scan_down-finds es h name k found (suc j) lt same = elim (Bool-cases (k == j)) [
  | inl here ↦ ground (arith, same j, found, ap (desc_named es name) ((==_iff k j).0 here))
  | inr below ↦ ground (
    arith,
    same j,
    scan_down-finds es h name k found j (ground arith) (λ i a b. same i a (omega arith)),
  )
]

scan_up-finds :
    (es : List Entry) (h : ℕ) (name : List ℕ) (k : ℕ) {t : TensorDesc}
    → desc_named es name k ≡ some t
    → (n j : ℕ) → j ≤ k
    → k < j + n
    → ((i : ℕ) → j ≤ i → i ≤ k → hash_at es i ≡ h)
    → scan_up es h name n j ≢ none
unfolding scan_up
scan_up-finds es h name k found zero j le lt same = absurd (omega arith)
scan_up-finds es h name k found (suc n) j le lt same = elim (Bool-cases (j == k)) [
  | inl here ↦ ground (arith, same j, found, ap (desc_named es name) ((==_iff j k).0 here))
  | inr below ↦ ground (
    arith,
    same j,
    scan_up-finds es h name k found n (j + 1) (ground arith) (omega arith)
        (λ i a b. same i (omega arith) b),
  )
]

pub or_else_right : (o p : Option TensorDesc) → p ≢ none → or_else o p ≢ none
or_else_right none p h = h
or_else_right (some t) p h = λ e. cc

pub or_else_left : (o p : Option TensorDesc) → o ≢ none → or_else o p ≢ none
or_else_left none p h = absurd (h refl)
or_else_left (some t) p h = λ e. cc

module _ (es : List Entry) (h : ℕ) (name : List ℕ) (sorted : IsSorted es) where
  same_between :
      (i j k : ℕ)
      → i ≤ j
      → j ≤ k
      → k < length es
      → hash_at es i ≡ h
      → hash_at es k ≡ h
      → hash_at es j ≡ h
  same_between i j k a b c d e = omega (arith, sorted i j a (omega arith), sorted j k b c)

  around-finds :
      (mid k : ℕ) {t : TensorDesc}
      → mid < length es
      → k < length es
      → hash_at es mid ≡ h
      → hash_at es k ≡ h
      → desc_named es name k ≡ some t
      → around es h name (length es) mid ≢ none
  unfolding around
  around-finds mid k lm lk hm hk found = elim (dec_lt k mid) [
    | yes below ↦ or_else_right (desc_named es name mid) _ (
        or_else_left _ _ (
          scan_down-finds es h name k found mid below
            (λ i a b. same_between k i mid a (omega arith) lm hk hm)))
    | no above ↦ elim (dec_lt mid k) [
      | yes beyond ↦ or_else_right (desc_named es name mid) _ (
          or_else_right (scan_down es h name mid) _ (
            scan_up-finds es h name k found (length es - (mid + 1)) (mid + 1) (omega arith)
              (omega arith) (λ i a b. same_between mid i k (omega arith) b lk hm hk)))
      | no same ↦
          let e : mid ≡ k = omega arith in
          or_else_left _ _ (λ gone. none_ne_some (sym gone ∙ ap (desc_named es name) e ∙ found))
    ]
  ]

  -- An entry with the right hash and name is not missed.
  pub find_overflow-finds :
      (k : ℕ) {t : TensorDesc}
      → k < length es
      → hash_at es k ≡ h
      → desc_named es name k ≡ some t
      → find_overflow es h name (length es) ≢ none
  unfolding find_overflow
  find_overflow-finds k lk hk found =
      let hit =
        search-finds es h k sorted hk (length es) 0 (length es) (omega arith) lk (omega arith)
          (omega arith) in
      rw (hit.1, find_overflow) (around-finds hit.0 k hit.3 lk hit.2 hk found)
