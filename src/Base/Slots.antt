-- ===== src/Base/Slots.antt =====
-- Tables of slots with linear probing.
use Prim.Native.Nat.{ℕ, zero, suc, ◌+◌, ◌-◌, ◌%◌, ◌<◌, ◌≤◌}
use native.Mathlib.Nat.{mod-eq_of_lt, add-mod_right, mod-lt, mod-add-mod}
use mathlib.Core.Path.{◌≡◌, refl, sym, ap, ◌∙◌}
use mathlib.Core.Logic.{inl, inr, ◌≢◌}
use mathlib.Core.Option.{Option, none, some}
use mathlib.Core.List.{List, [], ◌∷◌}
use native.Mathlib.Omega.{arith}
use qwanto.Base.Tests.{leb, ◌==◌, if◌then◌else◌, Bool-cases}
use qwanto.Base.Lists.{length, set, get_or, get_or-set, replicate}

module _ {A : Type 0} where
  -- What stands in a slot; `none` is a free one.
  unfoldable pub slot : List (Option A) → ℕ → Option A
  slot xs h = get_or xs h none

  -- How many slots are taken.
  unfoldable pub used : List (Option A) → ℕ
  used [] = 0
  used (none ∷ xs) = used xs
  used (some i ∷ xs) = suc (used xs)

  pub used-set :
      (xs : List (Option A)) (s : ℕ) (i : A)
      → s < length xs
      → slot xs s ≡ none
      → used (set xs s (some i)) ≡ suc (used xs)
  unfolding used slot
  used-set [] s i h e = elim h [ ]
  used-set (none ∷ xs) zero i h e = refl
  used-set (some j ∷ xs) zero i h e = cc
  used-set (none ∷ xs) (suc s) i h e = used-set xs s i (omega (arith, h)) e
  used-set (some j ∷ xs) (suc s) i h e = ap suc (used-set xs s i (omega (arith, h)) e)

  pub used-set_le :
      (xs : List (Option A)) (s : ℕ) (i : A) → used (set xs s (some i)) ≤ suc (used xs)
  unfolding used
  used-set_le [] s i = omega arith
  used-set_le (none ∷ xs) zero i = omega arith
  used-set_le (some j ∷ xs) zero i = omega arith
  used-set_le (none ∷ xs) (suc s) i = used-set_le xs s i
  used-set_le (some j ∷ xs) (suc s) i = omega (arith, used-set_le xs s i)

  -- A slot that is free.
  pub free_slot :
      (xs : List (Option A)) → used xs < length xs → (s : ℕ) × (s < length xs) × (slot xs s ≡ none)
  unfolding used slot
  free_slot [] h = elim h [ ]
  free_slot (none ∷ xs) h = (0, omega arith, refl)
  free_slot (some i ∷ xs) h =
      let (s, lt, e) = free_slot xs (omega (arith, h)) in (suc s, omega (arith, lt), e)

  pub slot-replicate : (n s : ℕ) → slot (replicate {A = Option A} n none) s ≡ none
  unfolding slot
  slot-replicate zero s = refl
  slot-replicate (suc n) zero = refl
  slot-replicate (suc n) (suc s) = slot-replicate n s

  pub slot-set :
      (xs : List (Option A)) (s h : ℕ) (i : A)
      → s < length xs
      → slot (set xs s (some i)) h ≡ (if h == s then some i else slot xs h)
  unfolding slot
  slot-set xs s h i lt = get_or-set xs s h (some i) none lt

  -- A write elsewhere leaves a slot.
  pub slot-set_other :
      (xs : List (Option A)) (s h : ℕ) (o : Option A) → h ≢ s → slot (set xs s o) h ≡ slot xs h
  unfolding slot
  slot-set_other [] s h o d = refl
  slot-set_other (x ∷ xs) zero zero o d = absurd (d refl)
  slot-set_other (x ∷ xs) zero (suc h) o d = refl
  slot-set_other (x ∷ xs) (suc s) zero o d = refl
  slot-set_other (x ∷ xs) (suc s) (suc h) o d = slot-set_other xs s h o (λ e. d (ap suc e))

pub used-replicate : (A : Type 0) (n : ℕ) → used (replicate {A = Option A} n none) ≡ 0
unfolding used
used-replicate A zero = refl
used-replicate A (suc n) = used-replicate A n

pub length-replicate {ℓ} : {A : Type ℓ} (n : ℕ) (a : A) → length (replicate n a) ≡ n
length-replicate zero a = refl
length-replicate (suc n) a = ap suc (length-replicate n a)

-- Each slot is some distance below the capacity behind the slot `h % n`.
pub distance : (n h s : ℕ) → s < n → (e : ℕ) × (e < n) × ((h + e) % n ≡ s)
distance n h s lt =
    let r = h % n in
    let small : r < n = mod-lt h (omega (arith, lt)) in
    elim (Bool-cases (leb r s)) [
      | inl le ↦
          let e = s - r in
          (
            e,
            ground arith,
            sym (mod-add-mod h n e) ∙ ap (λ z. z % n) (ground arith) ∙ mod-eq_of_lt lt,
          )
      | inr gt ↦
          let e = s + n - r in
          (
            e,
            ground arith,
            sym (mod-add-mod h n e)
                ∙ ap (λ z. z % n) (ground arith)
                ∙ add-mod_right s n
                ∙ mod-eq_of_lt lt,
          )
    ]

pub step : (n h o : ℕ) → ((h + o) % n + 1) % n ≡ (h + (o + 1)) % n
step n h o = mod-add-mod (h + o) n 1 ∙ ap (λ z. z % n) (omega arith)
