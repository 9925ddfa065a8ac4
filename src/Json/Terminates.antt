-- ===== src/Json/Terminates.antt =====
-- `json_parse` ends on every text within its fuel.
use qwanto.Base.{
  ℕ, zero, suc, ◌+◌, ◌*◌, ◌≤◌, ◌<◌, ◌≡◌, ◌⊎◌, inl, inr, true, List, length, leb, arith, refl,
  Bool-cases,
}
use qwanto.Json.{
  Jval, Items, Fields, Scan, got, over_read, out_of_fuel, ◌>>=◌, skip_ws, j_max_depth,
}
use qwanto.Json.Strings.{string_raw}
use qwanto.Json.Parse.{
  Place, reading, starts, tail, after_colon, Kind, quote, brace, bracket, t_, f_, n_, number, kind,
  next, fields_next, items_next, object_body, array_body, value_at, value, fields, items,
  json_parse,
}
use qwanto.Json.Ends.{
  Ends, Ends->>=, Ends-mono, Within, Within-mono, skip_ws-length, string_raw-Ends, advance-Within,
  reading-Ends, starts-tail, tail-length, after_colon-length,
}

-- A loop that ends on the texts shorter than `k`, leaving no more than it was given.
abbrev EndsBelow : {A : Type 0} → ℕ → (List ℕ → Scan (A × Place)) → Type 0
EndsBelow k loop = (q : List ℕ) → length q < k → Ends (λ x. Within (length q) x.1) (loop q)

brace-starts : (p : List ℕ) → kind p ≡ brace → starts b'{' p ≡ true
unfolding kind
brace-starts p e = ground arith

bracket-starts : (p : List ℕ) → kind p ≡ bracket → starts b'[' p ≡ true
unfolding kind
bracket-starts p e = ground arith

module _ {D : Type 0} where
  fields_next-Ends :
      (more : List ℕ → Scan (Fields D × Place)) (key : List ℕ) (v : Jval D) (p : List ℕ)
      → EndsBelow (length p) more
      → Ends (λ x. Within (length p) x.1) (fields_next more key v p)
  unfolding fields_next next
  fields_next-Ends more key v p h = elim (Bool-cases (starts b',' p)) [
    | inl e ↦
        rw (e, fields_next)
          (Ends->>= (λ x. Within (length (tail p)) x.1) (λ x. Within (length p) x.1) (more (tail p))
            _ (h (tail p) (starts-tail b',' p e))
            (λ x w. Within-mono (length (tail p)) (length p) x.1 (tail-length p) w))
    | inr e ↦ elim (Bool-cases (starts b'}' p)) [
      | inl f ↦ rw (e, f, fields_next) (tail-length p)
      | inr f ↦ rw (e, f, fields_next) (omega arith)
    ]
  ]

  items_next-Ends :
      (more : List ℕ → Scan (Items D × Place)) (v : Jval D) (p : List ℕ)
      → EndsBelow (length p) more
      → Ends (λ x. Within (length p) x.1) (items_next more v p)
  unfolding items_next next
  items_next-Ends more v p h = elim (Bool-cases (starts b',' p)) [
    | inl e ↦
        rw (e, items_next)
          (Ends->>= (λ x. Within (length (tail p)) x.1) (λ x. Within (length p) x.1) (more (tail p))
            _ (h (tail p) (starts-tail b',' p e))
            (λ x w. Within-mono (length (tail p)) (length p) x.1 (tail-length p) w))
    | inr e ↦ elim (Bool-cases (starts b']' p)) [
      | inl f ↦ rw (e, f, items_next) (tail-length p)
      | inr f ↦ rw (e, f, items_next) (omega arith)
    ]
  ]

  object_body-Ends :
      (loop : List ℕ → Scan (Fields D × Place)) (q : List ℕ)
      → EndsBelow (length q + 1) loop
      → Ends (λ x. Within (length q) x.1) (object_body loop q)
  unfolding object_body
  object_body-Ends loop q h = elim (Bool-cases (starts b'}' q)) [
    | inl e ↦ rw (e, object_body) (tail-length q)
    | inr e ↦
        rw (e, object_body)
          (Ends->>= (λ x. Within (length q) x.1) (λ x. Within (length q) x.1) (loop q) _
            (h q (omega arith)) (λ x w. w))
  ]

  array_body-Ends :
      (loop : List ℕ → Scan (Items D × Place)) (q : List ℕ)
      → EndsBelow (length q + 1) loop
      → Ends (λ x. Within (length q) x.1) (array_body loop q)
  unfolding array_body
  array_body-Ends loop q h = elim (Bool-cases (starts b']' q)) [
    | inl e ↦ rw (e, array_body) (tail-length q)
    | inr e ↦
        rw (e, array_body)
          (Ends->>= (λ x. Within (length q) x.1) (λ x. Within (length q) x.1) (loop q) _
            (h q (omega arith)) (λ x w. w))
  ]

module _ {D : Type 0} (strtod : List ℕ → D × List ℕ)
    (shorter : (p : List ℕ) → length (strtod p).1 ≤ length p) where
  value_at-Ends :
      (members : List ℕ → Scan (Fields D × Place)) (elements : List ℕ → Scan (Items D × Place))
      (d : ℕ) (p : List ℕ)
      → EndsBelow (length p) members
      → EndsBelow (length p) elements
      → Ends (λ x. Within (length p) x.1) (value_at strtod members elements d p)
  unfolding value_at
  value_at-Ends members elements d p hm he = by_kind (kind p) refl
    where
      inner : starts b'{' p ≡ true ⊎ starts b'[' p ≡ true → length (skip_ws (tail p)) < length p
      inner (inl e) = omega (arith, starts-tail b'{' p e, skip_ws-length (tail p))
      inner (inr e) = omega (arith, starts-tail b'[' p e, skip_ws-length (tail p))

      by_kind :
          (k : Kind)
          → kind p ≡ k
          → Ends (λ x. Within (length p) x.1) (value_at strtod members elements d p)
      by_kind quote e =
          rw (e, value_at)
            (Ends->>= (λ x. length x.1 < length p) (λ x. Within (length p) x.1) (string_raw p) _
              (string_raw-Ends p) (λ x l. omega (arith, l)))
      by_kind brace e = elim (Bool-cases (leb j_max_depth d)) [
        | inl f ↦ rw (e, value_at, f) (omega arith)
        | inr f ↦
            let lt = inner (inl (brace-starts p e)) in
            rw (e, value_at, f)
              (Ends-mono (λ x. Within (length (skip_ws (tail p))) x.1) (λ x. Within (length p) x.1)
                (object_body members (skip_ws (tail p)))
                (λ x w. Within-mono _ (length p) x.1 (omega (arith, lt)) w)
                (object_body-Ends members (skip_ws (tail p)) (λ q l. hm q (omega (arith, l, lt)))))
      ]
      by_kind bracket e = elim (Bool-cases (leb j_max_depth d)) [
        | inl f ↦ rw (e, value_at, f) (omega arith)
        | inr f ↦
            let lt = inner (inr (bracket-starts p e)) in
            rw (e, value_at, f)
              (Ends-mono (λ x. Within (length (skip_ws (tail p))) x.1) (λ x. Within (length p) x.1)
                (array_body elements (skip_ws (tail p)))
                (λ x w. Within-mono _ (length p) x.1 (omega (arith, lt)) w)
                (array_body-Ends elements (skip_ws (tail p)) (λ q l. he q (omega (arith, l, lt)))))
      ]
      by_kind t_ e = rw (e, value_at) (advance-Within 4 p)
      by_kind f_ e = rw (e, value_at) (advance-Within 5 p)
      by_kind n_ e = rw (e, value_at) (advance-Within 4 p)
      by_kind number e = rw (e, value_at) (shorter p)

  -- A loop goes on at a text no longer than `k` behind a value.
  goes_on :
      {A : Type 0} (k : ℕ) (v : Scan (Jval D × Place)) (f : Jval D → List ℕ → Scan (A × Place))
      → Ends (λ x. Within k x.1) v
      → ((x : Jval D) (p : List ℕ) → length p ≤ k → Ends (λ y. Within (length p) y.1) (f x p))
      → Ends (λ y. Within k y.1) (v >>= λ x. reading x.1 λ p. f x.0 (skip_ws p))
  goes_on k v f h g =
      Ends->>= (λ x. Within k x.1) (λ y. Within k y.1) v _ h
        (λ x w.
          reading-Ends (λ y. Within k y.1) k x.1 _ w
            (λ p l.
              let le : length (skip_ws p) ≤ k = omega (arith, skip_ws-length p, l) in
              Ends-mono (λ y. Within (length (skip_ws p)) y.1) (λ y. Within k y.1)
                (f x.0 (skip_ws p)) (λ y u. Within-mono _ k y.1 le u) (g x.0 (skip_ws p) le)))

  mutual
    unfolding value

    value-Ends :
        (n d : ℕ) (p : List ℕ)
        → 2 * length p < n
        → Ends (λ x. Within (length p) x.1) (value strtod n d p)
    value-Ends zero d p h = elim h [ ]
    value-Ends (suc n) d p h =
        Ends-mono (λ x. Within (length (skip_ws p)) x.1) (λ x. Within (length p) x.1)
          (value_at strtod (fields strtod n (d + 1)) (items strtod n (d + 1)) d (skip_ws p))
          (λ x w. Within-mono _ (length p) x.1 (skip_ws-length p) w)
          (value_at-Ends (fields strtod n (d + 1)) (items strtod n (d + 1)) d (skip_ws p)
            (λ q l. fields-Ends n (d + 1) q (omega (arith, l, skip_ws-length p, h)))
            (λ q l. items-Ends n (d + 1) q (omega (arith, l, skip_ws-length p, h))))

    fields-Ends :
        (n d : ℕ) (p : List ℕ)
        → 2 * length p < n
        → Ends (λ x. Within (length p) x.1) (fields strtod n d p)
    fields-Ends zero d p h = elim h [ ]
    fields-Ends (suc n) d p h =
        Ends->>= (λ x. length x.1 < length (skip_ws p)) (λ x. Within (length p) x.1)
          (string_raw (skip_ws p)) _ (string_raw-Ends (skip_ws p))
          (λ key l.
            let q = after_colon (skip_ws key.1) in
            let lt : length q < length p = omega (
              arith,
              l,
              skip_ws-length p,
              skip_ws-length key.1,
              after_colon-length (skip_ws key.1),
            ) in
            Ends-mono {A = Fields D × Place} (λ x. Within (length q) x.1)
              (λ x. Within (length p) x.1) _
              (λ x w. Within-mono _ (length p) x.1 (omega (arith, lt)) w)
              (goes_on (length q) (value strtod n d q)
                (λ v. fields_next (fields strtod n d) key.0 v)
                (value-Ends n d q (omega (arith, lt, h)))
                (λ v s le.
                  fields_next-Ends (fields strtod n d) key.0 v s
                    (λ t k. fields-Ends n d t (omega (arith, k, le, lt, h))))))

    items-Ends :
        (n d : ℕ) (p : List ℕ)
        → 2 * length p + 1 < n
        → Ends (λ x. Within (length p) x.1) (items strtod n d p)
    items-Ends zero d p h = elim h [ ]
    items-Ends (suc n) d p h =
        goes_on (length p) (value strtod n d p) (items_next (items strtod n d))
          (value-Ends n d p (omega (arith, h)))
          (λ v s le.
            items_next-Ends (items strtod n d) v s
              (λ t k. items-Ends n d t (omega (arith, k, le, h))))

  json_parse-Ends : (text : List ℕ) → Ends (λ v. Unit {0}) (json_parse strtod text)
  unfolding json_parse
  json_parse-Ends text =
      Ends->>= (λ x. Within (length text) x.1) (λ v. Unit)
        (value strtod (2 * length text + 1) 0 text) _
        (value-Ends (2 * length text + 1) 0 text (omega arith)) (λ x w. tt)

  -- Where strtod leaves no more than it is given, the parse of any text, well formed or not, ends within
  -- its fuel, which is twice the length of the text and one: it gives a value, or it comes to read behind the NUL.
  pub json_parse_ends :
      (text : List ℕ)
      → ((v : Jval D) × (json_parse strtod text ≡ got v)) ⊎ (json_parse strtod text ≡ over_read)
  json_parse_ends text = returned (json_parse strtod text) (json_parse-Ends text)
    where
      returned :
          (r : Scan (Jval D))
          → Ends (λ v. Unit {0}) r
          → ((v : Jval D) × (r ≡ got v)) ⊎ (r ≡ over_read)
      returned (got v) h = inl (v, refl)
      returned over_read h = inr refl
      returned out_of_fuel h = elim h [ ]
