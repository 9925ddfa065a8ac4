-- ===== src/Container/Find/Names.antt =====
-- What `qwn_find` returns, and what `qwn_tensor_at` enumerates, in a model that `qwn_open` opened.
use qwanto.Base.{
  ℕ, zero, suc, ◌+◌, ◌-◌, ◌≡◌, refl, inl, inr, true, Option, none, some, List, [], ◌∷◌, get_elem?,
  All, arith, Bool-cases, Option-cases, c_string, get_elem?-All, ◌==◌, ◌&&◌,
}
use qwanto.Container.Desc.{TensorDesc}
use qwanto.Container.Model.{Entry}
use qwanto.Container.Open.{same_bytes, hash_name}
use qwanto.Container.Find.{
  name_is, find_inline, search, desc_named, or_else, scan_down, scan_up, around, find_overflow,
  hash_at,
}

pub same_bytes-eq : (xs ys : List ℕ) → same_bytes xs ys ≡ true → xs ≡ ys
unfolding same_bytes
same_bytes-eq [] [] h = refl
same_bytes-eq [] (y ∷ ys) h = cc
same_bytes-eq (x ∷ xs) [] h = cc
same_bytes-eq (x ∷ xs) (y ∷ ys) h = ground (arith, same_bytes-eq xs ys)

pub same_bytes_refl : (xs : List ℕ) → same_bytes xs xs ≡ true
unfolding same_bytes
same_bytes_refl [] = refl
same_bytes_refl (x ∷ xs) = ground (arith, same_bytes_refl xs)

c_string_idem : (xs : List ℕ) → c_string (c_string xs) ≡ c_string xs
unfolding c_string
c_string_idem [] = refl
c_string_idem (x ∷ xs) = ground (arith, c_string_idem xs)

pub hash_of_named :
    (name : List ℕ) (t : TensorDesc) → c_string t.name ≡ name → hash_name t.name ≡ hash_name name
unfolding hash_name
hash_of_named name t e = rw (← e, c_string_idem t.name)

-- A descriptor of that name for which `P` holds.
abbrev pub Yields : (TensorDesc → Type 0) → List ℕ → Option TensorDesc → Type 0
Yields P name none = Unit
Yields P name (some t) = (c_string t.name ≡ name) × P t

pub or_else-Yields :
    (P : TensorDesc → Type 0) (name : List ℕ) (o p : Option TensorDesc)
    → Yields P name o
    → Yields P name p
    → Yields P name (or_else o p)
or_else-Yields P name none p a b = b
or_else-Yields P name (some t) p a b = a

module _ (P : TensorDesc → Type 0) (name : List ℕ) where
  pub find_inline-Yields :
      (h : ℕ) (hs : List ℕ) (ts : List TensorDesc)
      → All P ts
      → Yields P name (find_inline h name hs ts)
  unfolding find_inline name_is
  find_inline-Yields h [] ts a = tt
  find_inline-Yields h (x ∷ hs) [] a = tt
  find_inline-Yields h (x ∷ hs) (t ∷ ts) a =
      elim (Bool-cases (x == h && same_bytes (c_string t.name) name)) [
        | inl hit ↦ rw (hit, find_inline) (same_bytes-eq (c_string t.name) name (ground arith), a.0)
        | inr miss ↦ rw (miss, find_inline) (find_inline-Yields h hs ts a.1)
      ]

  module _ (es : List Entry) (a : All (λ e. P e.desc) es) where
    desc_named-Yields : (i : ℕ) → Yields P name (desc_named es name i)
    unfolding desc_named name_is
    desc_named-Yields i = elim (Option-cases (get_elem? es i)) [
      | inl e ↦ rw (e, desc_named) tt
      | inr (x, e) ↦ elim (Bool-cases (same_bytes (c_string x.desc.name) name)) [
        | inl hit ↦
            rw (e, desc_named)
              (rw hit (
                same_bytes-eq (c_string x.desc.name) name hit,
                get_elem?-All (λ e. P e.desc) es i a e,
              ))
        | inr miss ↦ rw (e, desc_named) (rw miss tt)
      ]
    ]

    scan_down-Yields : (h j : ℕ) → Yields P name (scan_down es h name j)
    unfolding scan_down
    scan_down-Yields h zero = tt
    scan_down-Yields h (suc j) = elim (Bool-cases (hash_at es j == h)) [
      | inl eq ↦
          rw (eq, scan_down)
            (or_else-Yields P name (desc_named es name j) _ (desc_named-Yields j)
              (scan_down-Yields h j))
      | inr ne ↦ rw (ne, scan_down) tt
    ]

    scan_up-Yields : (h n j : ℕ) → Yields P name (scan_up es h name n j)
    unfolding scan_up
    scan_up-Yields h zero j = tt
    scan_up-Yields h (suc n) j = elim (Bool-cases (hash_at es j == h)) [
      | inl eq ↦
          rw (eq, scan_up)
            (or_else-Yields P name (desc_named es name j) _ (desc_named-Yields j)
              (scan_up-Yields h n (j + 1)))
      | inr ne ↦ rw (ne, scan_up) tt
    ]

    pub find_overflow-Yields : (h count : ℕ) → Yields P name (find_overflow es h name count)
    unfolding find_overflow around
    find_overflow-Yields h count = elim (Option-cases (search es h count 0 count)) [
      | inl e ↦ rw (e, find_overflow) tt
      | inr (mid, e) ↦
          rw (e, find_overflow)
            (or_else-Yields P name (desc_named es name mid) _ (desc_named-Yields mid) (
              or_else-Yields P name (scan_down es h name mid) _ (scan_down-Yields h mid)
                (scan_up-Yields h (count - (mid + 1)) (mid + 1))))
    ]
