-- ===== src/Tokenizer/HashMap/Seeks.antt =====
-- The slot where the loops of the hash map of c/tok.h stop.
use native.Mathlib.Nat.{mod-lt}
use qwanto.Base.{
  some_eq, ℕ, zero, suc, ◌+◌, ◌%◌, ◌<◌, ◌≡◌, ◌⊎◌, inl, inr, true, false, Option, none, some, List,
  length, set, arith, refl, sym, ap, subst, ◌∙◌, Bool-cases, slot, used, free_slot, distance, step,
}
use qwanto.Container.Open.{same_bytes}
use qwanto.Container.Find.Names.{same_bytes-eq, same_bytes_refl}
use qwanto.Tokenizer.HashMap.{HMap, put_from, get_from}

-- The first slot from `h` on that is free or has the key.
unfoldable pub seek : ℕ → HMap → ℕ → List ℕ → Option ℕ
seek zero m h k = none
seek (suc n) m h k = elim (slot m h) [
  | none ↦ some h
  | some e ↦ elim (same_bytes e.0 k) [ true ↦ some h | false ↦ seek n m ((h + 1) % length m) k ]
]

-- What a turn of the loop meets.
pub data Meets (m : HMap) (h : ℕ) (k : List ℕ) : Type 0 where
  free_here : slot m h ≡ none → Meets m h k
  key_here : (v : ℕ) → slot m h ≡ some (k, v) → Meets m h k
  other_here : (e : List ℕ × ℕ) → slot m h ≡ some e → same_bytes e.0 k ≡ false → Meets m h k

pub meets : (m : HMap) (h : ℕ) (k : List ℕ) → Meets m h k
meets m h k = go (slot m h) refl
  where
    go : (o : Option (List ℕ × ℕ)) → slot m h ≡ o → Meets m h k
    go none e = free_here e
    go (some x) e = elim (Bool-cases (same_bytes x.0 k)) [
      | inl f ↦ key_here x.1 (e ∙ ap (λ q. some (q, x.1)) (same_bytes-eq x.0 k f))
      | inr f ↦ other_here x e f
    ]

pub seek-free :
    (n : ℕ) (m : HMap) (h : ℕ) (k : List ℕ) → slot m h ≡ none → seek (suc n) m h k ≡ some h
unfolding seek
seek-free n m h k e = rw (seek, e) refl

pub seek-key :
    (n : ℕ) (m : HMap) (h v : ℕ) (k : List ℕ) → slot m h ≡ some (k, v) → seek (suc n) m h k ≡ some h
unfolding seek
seek-key n m h v k e = let same = same_bytes_refl k in rw (seek, e) (rw (same) refl)

pub seek-other :
    (n : ℕ) (m : HMap) (h : ℕ) (e : List ℕ × ℕ) (k : List ℕ)
    → slot m h ≡ some e
    → same_bytes e.0 k ≡ false
    → seek (suc n) m h k ≡ seek n m ((h + 1) % length m) k
unfolding seek
seek-other n m h e k f g = rw (seek, f) (rw (g) refl)

next_slot : (n h : ℕ) → (h % n + 1) % n ≡ (h + 1) % n
next_slot n h = ap (λ z. (z % n + 1) % n) (omega arith) ∙ step n h 0

-- Where a slot at the distance `e` is free, the loop stops.
pub seek-stops :
    (fuel e : ℕ) (m : HMap) (h : ℕ) (k : List ℕ)
    → e < fuel
    → slot m ((h + e) % length m) ≡ none
    → (s : ℕ) × (seek fuel m (h % length m) k ≡ some s)
seek-stops zero e m h k lt f = elim lt [ ]
seek-stops (suc n) zero m h k lt f =
    (_, seek-free n m _ k (ap (λ s. slot m (s % length m)) (omega arith) ∙ f))
seek-stops (suc n) (suc e) m h k lt f = elim (meets m (h % length m) k) [
  | free_here g ↦ (_, seek-free n m _ k g)
  | key_here v g ↦ (_, seek-key n m _ v k g)
  | other_here x g d ↦
      let r =
        seek-stops n e m (h + 1) k (omega (arith, lt))
          (ap (λ s. slot m (s % length m)) (omega arith) ∙ f) in
      (r.0, seek-other n m _ x k g d ∙ ap (λ s. seek n m s k) (next_slot (length m) h) ∙ r.1)
]

-- Where a slot is free, the loop stops.
pub seek_total :
    (m : HMap) (h : ℕ) (k : List ℕ)
    → used m < length m
    → (s : ℕ) × (seek (length m) m (h % length m) k ≡ some s)
seek_total m h k room =
    let (s, lt, e) = free_slot m room in
    let (d, near, at) = distance (length m) h s lt in
    seek-stops (length m) d m h k near (ap (slot m) at ∙ e)

-- The slot where it stops is free or has the key, and is in the table.
pub seek-Meets :
    (n : ℕ) (m : HMap) (h : ℕ) (k : List ℕ) (s : ℕ)
    → seek n m h k ≡ some s
    → (slot m s ≡ none) ⊎ ((v : ℕ) × (slot m s ≡ some (k, v)))
unfolding seek
seek-Meets zero m h k s e = cc
seek-Meets (suc n) m h k s e = elim (meets m h k) [
  | free_here g ↦ inl (ap (slot m) (sym (some_eq (sym (seek-free n m h k g) ∙ e))) ∙ g)
  | key_here v g ↦ inr (v, ap (slot m) (sym (some_eq (sym (seek-key n m h v k g) ∙ e))) ∙ g)
  | other_here x g d ↦ seek-Meets n m ((h + 1) % length m) k s (sym (seek-other n m h x k g d) ∙ e)
]

pub seek-lt :
    (n : ℕ) (m : HMap) (h : ℕ) (k : List ℕ) (s : ℕ)
    → h < length m
    → seek n m h k ≡ some s
    → s < length m
unfolding seek
seek-lt zero m h k s lt e = cc
seek-lt (suc n) m h k s lt e = elim (meets m h k) [
  | free_here g ↦ subst (λ z. z < length m) (some_eq (sym (seek-free n m h k g) ∙ e)) lt
  | key_here v g ↦ subst (λ z. z < length m) (some_eq (sym (seek-key n m h v k g) ∙ e)) lt
  | other_here x g d ↦
      seek-lt n m ((h + 1) % length m) k s (mod-lt (h + 1) (omega (arith, lt)))
        (sym (seek-other n m h x k g d) ∙ e)
]

-- hm_put and hm_get in terms of the slot.
pub put_from-seek :
    (n : ℕ) (m : HMap) (h : ℕ) (k : List ℕ) (v s : ℕ)
    → seek n m h k ≡ some s
    → put_from n m h k v ≡ some (set m s (some (k, v)))
unfolding seek put_from
put_from-seek zero m h k v s e = cc
put_from-seek (suc n) m h k v s e = elim (meets m h k) [
  | free_here g ↦
      rw (put_from, g)
        (ap (λ z. some (set m z (some (k, v)))) (some_eq (sym (seek-free n m h k g) ∙ e)))
  | key_here w g ↦
      let same = same_bytes_refl k in
      rw (put_from, g)
        (rw (same)
          (ap (λ z. some (set m z (some (k, v)))) (some_eq (sym (seek-key n m h w k g) ∙ e))))
  | other_here x g d ↦
      rw (put_from, g)
        (rw (d) (put_from-seek n m ((h + 1) % length m) k v s (sym (seek-other n m h x k g d) ∙ e)))
]

unfoldable pub entry_value : Option (List ℕ × ℕ) → Option ℕ
entry_value none = none
entry_value (some e) = some e.1

pub get_from-seek :
    (n : ℕ) (m : HMap) (h : ℕ) (k : List ℕ) (s : ℕ)
    → seek n m h k ≡ some s
    → get_from n m h k ≡ some (entry_value (slot m s))
unfolding seek get_from entry_value
get_from-seek zero m h k s e = cc
get_from-seek (suc n) m h k s e = elim (meets m h k) [
  | free_here g ↦
      rw (get_from, g)
        (ap (λ o. some (entry_value o))
          (sym g ∙ ap (slot m) (some_eq (sym (seek-free n m h k g) ∙ e))))
  | key_here w g ↦
      let same = same_bytes_refl k in
      rw (get_from, g)
        (rw (same) (
          ap (λ o. some (entry_value o))
            (sym g ∙ ap (slot m) (some_eq (sym (seek-key n m h w k g) ∙ e)))))
  | other_here x g d ↦
      rw (get_from, g)
        (rw (d) (get_from-seek n m ((h + 1) % length m) k s (sym (seek-other n m h x k g d) ∙ e)))
]
