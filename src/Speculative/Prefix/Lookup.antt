-- ===== src/Speculative/Prefix/Lookup.antt =====
-- A lookup behind an insert in the prefix cache of c/qwn_speculative.c.
use qwanto.Base.{
  ℕ, zero, suc, ◌+◌, ◌<◌, ◌≤◌, ◌≡◌, true, false, ◌||◌, Option, none, some, List, [], ◌∷◌, length,
  take, ltb, ◌==◌, arith, refl, ap, Bool-cases, inl, inr, length-set, length-append, ltb→lt,
  Option-cases, u64_max,
}
use qwanto.Speculative.Prefix.{
  Prefix, PrefixCache, first_index, answers, cache_lookup, oldest_entry, newest, placed, cache_init,
  cache_insert, now_used, Call, inserts, looks_up, run_calls, max_draft,
}
use qwanto.Speculative.Prefix.Newest.{
  Finds, first_index-set, first_index-none-set, first_index-append,
}

module _ {F : Type 0} where
  oldest_entry-lt :
      (es : List (Prefix F)) (i oldest slot bound : ℕ)
      → slot < bound
      → i + length es ≤ bound
      → oldest_entry es i oldest slot < bound
  unfolding oldest_entry
  oldest_entry-lt [] i oldest slot bound h k = h
  oldest_entry-lt (e ∷ es) i oldest slot bound h k =
      elim (Bool-cases (ltb e.lru_timestamp oldest)) [
        | inl older ↦
            rw (older, oldest_entry)
              (oldest_entry-lt es (i + 1) e.lru_timestamp i bound (omega arith) (omega arith))
        | inr newer ↦
            rw (newer, oldest_entry) (oldest_entry-lt es (i + 1) oldest slot bound h (omega arith))
      ]

  take-cons : (n : ℕ) (xs : List (ℕ × F)) → 0 < n → 0 < length xs → 0 < length (take n xs)
  take-cons zero xs h k = elim h [ ]
  take-cons (suc n) [] h k = elim k [ ]
  take-cons (suc n) (x ∷ xs) h k = omega arith

  other_hash : (hash : ℕ) (x : Prefix F) → (x.hash == hash) ≡ false → answers hash x ≡ false
  other_hash hash x other = rw (other) refl

  answers-newest :
      (c : PrefixCache F) (hash : ℕ) (tokens : List (ℕ × F))
      → 0 < length tokens
      → answers hash (newest c hash tokens) ≡ true
  answers-newest c hash tokens filled =
      ground (arith, take-cons max_draft tokens (omega arith) filled)

  placed-Finds :
      (c : PrefixCache F) (hash : ℕ) (e : Prefix F) (o : Option ℕ)
      → answers hash e ≡ true
      → 0 < c.capacity
      → length c.entries ≤ c.capacity
      → first_index (λ x. x.hash == hash) c.entries ≡ o
      → Finds (answers hash) (placed c e o) e
  unfolding placed
  placed-Finds c hash e (some i) new room le h =
      first_index-set (λ x. x.hash == hash) (answers hash) (other_hash hash) e new c.entries i h
  placed-Finds c hash e none new room le h = elim (Bool-cases (ltb (length c.entries) c.capacity)) [
    | inl free ↦
        rw (free, placed)
          (first_index-append (λ x. x.hash == hash) (answers hash) (other_hash hash) e new c.entries
            h)
    | inr full ↦
        rw (full, placed)
          (first_index-none-set (λ x. x.hash == hash) (answers hash) (other_hash hash) e new
            c.entries (oldest_entry c.entries 0 u64_max 0) h
            (oldest_entry-lt c.entries 0 u64_max 0 (length c.entries) (ground arith) (omega arith)))
  ]

  cache_insert-Finds :
      (c : PrefixCache F) (hash : ℕ) (tokens : List (ℕ × F))
      → 0 < hash
      → 0 < length tokens
      → 0 < c.capacity
      → length c.entries ≤ c.capacity
      → Finds (answers hash) (cache_insert c hash tokens).entries (newest c hash tokens)
  unfolding cache_insert
  cache_insert-Finds c hash tokens keyed filled room le =
      let stores : ((hash == 0) || (length tokens == 0)) ≡ false = ground arith in
      rw (stores, cache_insert)
        (placed-Finds c hash (newest c hash tokens) _ (answers-newest c hash tokens filled) room le
          refl)

  cache_lookup-Finds :
      (c : PrefixCache F) (hash max_len : ℕ) (e : Prefix F)
      → 0 < hash
      → 0 < max_len
      → Finds (answers hash) c.entries e
      → (cache_lookup c hash max_len).0 ≡ take max_len e.tokens
  unfolding cache_lookup
  cache_lookup-Finds c hash max_len e keyed asked (i, found, here) =
      let looks : ((hash == 0) || (max_len == 0)) ≡ false = ground arith in
      rw (looks, cache_lookup) (rw (found) (ap (λ x. take max_len x.tokens) here))

  -- There is room for an entry, and the entries have room.
  abbrev Fits : PrefixCache F → Type 0
  Fits c = (0 < c.capacity) × (length c.entries ≤ c.capacity)

  cache_lookup-Fits :
      (c : PrefixCache F) (hash max_len : ℕ) → Fits c → Fits (cache_lookup c hash max_len).1
  unfolding cache_lookup
  cache_lookup-Fits c hash max_len fits = elim (Bool-cases ((hash == 0) || (max_len == 0))) [
    | inl refused ↦ rw (refused, cache_lookup) fits
    | inr looks ↦ elim (Option-cases (first_index (answers hash) c.entries)) [
      | inl nowhere ↦ rw (looks, cache_lookup) (rw (nowhere) fits)
      | inr (i, found) ↦
          rw (looks, cache_lookup)
            (rw (found) (fits.0, ground (arith, length-set c.entries i (now_used c i), fits.1)))
    ]
  ]

  placed-length :
      (c : PrefixCache F) (e : Prefix F) (o : Option ℕ)
      → length c.entries ≤ c.capacity
      → length (placed c e o) ≤ c.capacity
  unfolding placed
  placed-length c e (some i) le = omega (arith, length-set c.entries i e)
  placed-length c e none le = elim (Bool-cases (ltb (length c.entries) c.capacity)) [
    | inl free ↦
        rw (free, placed) (omega (arith, length-append c.entries (e ∷ []), ltb→lt _ _ free))
    | inr full ↦
        rw (full, placed)
          (omega (arith, length-set c.entries (oldest_entry c.entries 0 u64_max 0) e))
  ]

  cache_insert-Fits :
      (c : PrefixCache F) (hash : ℕ) (tokens : List (ℕ × F))
      → Fits c
      → Fits (cache_insert c hash tokens)
  unfolding cache_insert
  cache_insert-Fits c hash tokens fits = elim (Bool-cases ((hash == 0) || (length tokens == 0))) [
    | inl refused ↦ rw (refused, cache_insert) fits
    | inr stores ↦
        rw (stores, cache_insert) (fits.0, placed-length c (newest c hash tokens) _ fits.1)
  ]

  run_calls-Fits : (calls : List (Call F)) (c : PrefixCache F) → Fits c → Fits (run_calls calls c)
  unfolding run_calls
  run_calls-Fits [] c fits = fits
  run_calls-Fits (inserts hash tokens ∷ calls) c fits =
      run_calls-Fits calls (cache_insert c hash tokens) (cache_insert-Fits c hash tokens fits)
  run_calls-Fits (looks_up hash max_len ∷ calls) c fits =
      run_calls-Fits calls (cache_lookup c hash max_len).1 (cache_lookup-Fits c hash max_len fits)

  -- In every state that inserts and lookups reach from a new cache of any capacity, for a hash and a
  -- length above 0 and at least one token: a lookup under the hash right after an insert gives the tokens
  -- that were inserted, with their probabilities, up to the 16 that an entry holds and the length that is
  -- asked for.
  pub cache_lookup-cache_insert :
      (capacity : ℕ) (calls : List (Call F)) (hash max_len : ℕ) (tokens : List (ℕ × F))
      → 0 < hash
      → 0 < max_len
      → 0 < length tokens
      → (cache_lookup
          (cache_insert (run_calls calls (cache_init capacity)) hash tokens)
          hash
          max_len).0
        ≡ take max_len (take max_draft tokens)
  unfolding cache_init
  cache_lookup-cache_insert capacity calls hash max_len tokens keyed asked filled =
      let c : PrefixCache F = run_calls calls (cache_init capacity) in
      let fits : Fits c = run_calls-Fits calls (cache_init capacity) (ground arith) in
      cache_lookup-Finds (cache_insert c hash tokens) hash max_len (newest c hash tokens) keyed
        asked (cache_insert-Finds c hash tokens keyed filled fits.0 fits.1)
