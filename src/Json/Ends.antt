-- ===== src/Json/Ends.antt =====
-- The strings of c/json.h end, and how much of the text the small steps leave.
use qwanto.Base.{
  ℕ, zero, suc, ◌+◌, ◌≤◌, ◌<◌, ◌≡◌, inl, inr, true, ◌&&◌, none, some, List, [], ◌∷◌, length, ◌==◌,
  arith, Bool-cases,
}
use qwanto.Json.{Scan, got, over_read, out_of_fuel, ◌>>=◌, skip_ws, is_space}
use qwanto.Json.Strings.{
  puts, utf8, strtoul16, is_low, is_high, low_half, code_point, unicode, escape, raw, string_raw,
}
use qwanto.Json.Parse.{Place, advance, reading, starts, tail, after_colon}

-- Not out of fuel, and `P` holds of what was read.
abbrev pub Ends : {A : Type 0} → (A → Type 0) → Scan A → Type 0
Ends P (got a) = P a
Ends P over_read = Unit
Ends P out_of_fuel = ⊥

pub Ends->>= :
    {A B : Type 0} (P : A → Type 0) (Q : B → Type 0) (r : Scan A) (f : A → Scan B)
    → Ends P r
    → ((a : A) → P a → Ends Q (f a))
    → Ends Q (r >>= f)
Ends->>= P Q (got a) f h k = k a h
Ends->>= P Q over_read f h k = tt
Ends->>= P Q out_of_fuel f h k = elim h [ ]

pub Ends-mono :
    {A : Type 0} (P Q : A → Type 0) (r : Scan A) → ((a : A) → P a → Q a) → Ends P r → Ends Q r
Ends-mono P Q (got a) f h = f a h
Ends-mono P Q over_read f h = tt
Ends-mono P Q out_of_fuel f h = elim h [ ]

-- At most `k` bytes are left.
abbrev Leaves : {A : Type 0} → ℕ → A × List ℕ → Type 0
Leaves k x = length x.1 ≤ k

abbrev pub Within : ℕ → Place → Type 0
Within k none = Unit
Within k (some p) = length p ≤ k

pub skip_ws-length : (p : List ℕ) → length (skip_ws p) ≤ length p
unfolding skip_ws
skip_ws-length [] = omega arith
skip_ws-length (c ∷ p) = elim (Bool-cases (is_space c)) [
  | inl e ↦ rw (e, skip_ws) (omega (arith, skip_ws-length p))
  | inr e ↦ rw (e, skip_ws) (omega arith)
]

low_half-Ends :
    (hi : ℕ) (back p : List ℕ)
    → length p ≤ length back
    → Ends (Leaves (length back)) (low_half hi back p)
unfolding low_half
low_half-Ends hi back [] h = tt
low_half-Ends hi back (a ∷ []) h = tt
low_half-Ends hi back (a ∷ b ∷ []) h = tt
low_half-Ends hi back (a ∷ b ∷ c ∷ []) h = elim (Bool-cases (is_low (strtoul16 (a ∷ b ∷ c ∷ [])))) [
  | inl e ↦ rw e tt
  | inr e ↦ rw e (omega arith)
]
low_half-Ends hi back (a ∷ b ∷ c ∷ d ∷ p) h =
    elim (Bool-cases (is_low (strtoul16 (a ∷ b ∷ c ∷ d ∷ [])))) [
      | inl e ↦ rw e (omega arith)
      | inr e ↦ rw e (omega arith)
    ]

code_point-Ends : (cp : ℕ) (p : List ℕ) → Ends (Leaves (length p)) (code_point cp p)
unfolding code_point
code_point-Ends cp [] = omega arith
code_point-Ends cp (x ∷ []) = omega arith
code_point-Ends cp (x ∷ y ∷ p) = elim (Bool-cases (is_high cp && ((x == 92) && (y == b'u')))) [
  | inl e ↦ rw e (low_half-Ends cp (x ∷ y ∷ p) p (omega arith))
  | inr e ↦ rw e (omega arith)
]

unicode-Ends : (tmp p : List ℕ) → Ends (Leaves (length p)) (unicode tmp p)
unfolding unicode
unicode-Ends tmp (a ∷ b ∷ c ∷ d ∷ p) =
    Ends->>= (Leaves (length p)) (Leaves (length (a ∷ b ∷ c ∷ d ∷ p)))
      (code_point (strtoul16 (a ∷ b ∷ c ∷ d ∷ [])) p) (λ x. got (puts tmp (utf8 x.0), x.1))
      (code_point-Ends _ p) (λ x h. omega (arith, h))
unicode-Ends tmp [] = tt
unicode-Ends tmp (a ∷ []) = tt
unicode-Ends tmp (a ∷ b ∷ []) = tt
unicode-Ends tmp (a ∷ b ∷ c ∷ []) = tt

escape-Ends : (tmp p : List ℕ) → Ends (Leaves (length p)) (escape tmp p)
unfolding escape
escape-Ends tmp [] = omega arith
escape-Ends tmp (e ∷ p) = elim (Bool-cases (e == b'u')) [
  | inl h ↦
      rw (h, escape)
        (Ends-mono (Leaves (length p)) (Leaves (length (e ∷ p))) (unicode tmp p)
          (λ x l. omega (arith, l)) (unicode-Ends tmp p))
  | inr h ↦ rw (h, escape) (omega arith)
]

raw-Ends : (n : ℕ) (tmp p : List ℕ) → length p < n → Ends (Leaves (length p)) (raw n tmp p)
unfolding raw
raw-Ends zero tmp p h = elim h [ ]
raw-Ends (suc n) tmp [] h = omega arith
raw-Ends (suc n) tmp (c ∷ p) h = elim (Bool-cases (c == 34)) [
  | inl e ↦ rw (e, raw) (omega arith)
  | inr e ↦ elim (Bool-cases (c == 92)) [
    | inl f ↦
        rw (e, raw, f)
          (Ends->>= (Leaves (length p)) (Leaves (length (c ∷ p))) (escape tmp p)
            (λ x. raw n x.0 x.1) (escape-Ends tmp p)
            (λ x l.
              Ends-mono (Leaves (length x.1)) (Leaves (length (c ∷ p))) (raw n x.0 x.1)
                (λ y k. omega (arith, k, l)) (raw-Ends n x.0 x.1 (omega (arith, l, h)))))
    | inr f ↦
        rw (e, raw, f)
          (Ends-mono (Leaves (length p)) (Leaves (length (c ∷ p))) (raw n _ p)
            (λ y k. omega (arith, k)) (raw-Ends n _ p (omega (arith, h))))
  ]
]

-- The byte before the string is skipped.
pub string_raw-Ends : (p : List ℕ) → Ends (λ x. length x.1 < length p) (string_raw p)
unfolding string_raw
string_raw-Ends [] = tt
string_raw-Ends (c ∷ p) =
    Ends-mono (Leaves (length p)) (λ x. length x.1 < length (c ∷ p)) (raw (length p + 1) [] p)
      (λ y k. omega (arith, k)) (raw-Ends (length p + 1) [] p (omega arith))

pub advance-Within : (k : ℕ) (p : List ℕ) → Within (length p) (advance k p)
unfolding advance
advance-Within zero p = omega arith
advance-Within (suc k) [] = tt
advance-Within (suc k) (c ∷ p) = further (advance k p) (advance-Within k p)
  where
    further : (o : Place) → Within (length p) o → Within (length (c ∷ p)) o
    further none h = tt
    further (some q) h = omega (arith, h)

pub reading-Ends :
    {A : Type 0} (P : A → Type 0) (k : ℕ) (o : Place) (f : List ℕ → Scan A)
    → Within k o
    → ((p : List ℕ) → length p ≤ k → Ends P (f p))
    → Ends P (reading o f)
reading-Ends P k none f h g = tt
reading-Ends P k (some p) f h g = g p h

pub Within-mono : (k m : ℕ) (o : Place) → k ≤ m → Within k o → Within m o
Within-mono k m none h w = tt
Within-mono k m (some p) h w = omega (arith, h, w)

pub starts-tail : (c : ℕ) (p : List ℕ) → starts c p ≡ true → length (tail p) < length p
starts-tail c [] e = cc
starts-tail c (x ∷ p) e = omega arith

pub tail-length : (p : List ℕ) → length (tail p) ≤ length p
tail-length [] = omega arith
tail-length (x ∷ p) = omega arith

pub after_colon-length : (p : List ℕ) → length (after_colon p) ≤ length p
unfolding after_colon
after_colon-length p = ground (arith, tail-length p)
