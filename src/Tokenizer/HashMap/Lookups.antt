-- ===== src/Tokenizer/HashMap/Lookups.antt =====
-- The hash map of c/tok.h as a function.
use native.Mathlib.Nat.{mod-lt}
use qwanto.Base.{
  some_eq, ℕ, zero, suc, ◌+◌, ◌%◌, ◌<◌, ◌≤◌, ◌≡◌, ◌≢◌, ◌⊎◌, inl, inr, false, none, some, List,
  length, set, ◌==◌, if◌then◌else◌, arith, sym, ap, subst, ◌∙◌, Bool-cases, slot, used, used-set_le,
  slot-set, length-set, ℕ_discrete,
}
use qwanto.Container.Open.{same_bytes}
use qwanto.Container.Find.Names.{same_bytes-eq, same_bytes_refl}
use qwanto.Tokenizer.HashMap.{HMap, tk_fnv, hm_put, hm_get}
use qwanto.Tokenizer.HashMap.Seeks.{
  seek, meets, free_here, key_here, other_here, seek-free, seek-key, seek-other, seek_total,
  seek-Meets, seek-lt, put_from-seek, get_from-seek, entry_value,
}

abbrev pub home : HMap → List ℕ → ℕ
home m k = tk_fnv k % length m

-- Every key stands where the loop from its home stops.
pub record IsMap (m : HMap) : Type 0 where
  pub room : used m < length m
  pub stands :
      (s : ℕ) (k : List ℕ) (v : ℕ)
      → slot m s ≡ some (k, v)
      → seek (length m) m (home m k) k ≡ some s

differ : (k q : List ℕ) → same_bytes k q ≡ false → k ≡ q → ⊥
differ k q ne e =
    let same = ap (same_bytes k) (sym e) ∙ same_bytes_refl k in let no_more = sym same ∙ ne in cc

module _ (m : HMap) (k : List ℕ) (v s : ℕ) (lt : s < length m)
    (here : (slot m s ≡ none) ⊎ ((w : ℕ) × (slot m s ≡ some (k, w)))) where
  abbrev more : HMap
  more = set m s (some (k, v))

  slot-more : (h : ℕ) → slot more h ≡ (if h == s then some (k, v) else slot m h)
  slot-more h = slot-set m s h (k, v) lt

  slot_same : slot more s ≡ some (k, v)
  slot_same = slot-more s ∙ ground arith

  slot_other : (h : ℕ) → h ≢ s → slot more h ≡ slot m h
  slot_other h d = slot-more h ∙ ground (arith, d)

  -- The path of the key itself stays.
  seek_self : (n h : ℕ) → seek n m h k ≡ some s → seek n more h k ≡ some s
  unfolding seek
  seek_self zero h e = e
  seek_self (suc n) h e = elim (ℕ_discrete h s) [
    | yes is ↦ seek-key n more h v k (ap (slot more) is ∙ slot_same) ∙ ap some is
    | no d ↦ elim (meets m h k) [
      | free_here g ↦ absurd (d (some_eq (sym (seek-free n m h k g) ∙ e)))
      | key_here w g ↦ absurd (d (some_eq (sym (seek-key n m h w k g) ∙ e)))
      | other_here x g f ↦
          seek-other n more h x k (slot_other h d ∙ g) f
          ∙ ap (λ z. seek n more ((h + 1) % z) k) (length-set m s (some (k, v)))
          ∙ seek_self n ((h + 1) % length m) (sym (seek-other n m h x k g f) ∙ e)
    ]
  ]

  -- So does that of another key, where it ends at another slot.
  seek_kept :
      (q : List ℕ) (t : ℕ)
      → same_bytes k q ≡ false
      → t ≢ s
      → (n h : ℕ) → seek n m h q ≡ some t
      → seek n more h q ≡ some t
  unfolding seek
  seek_kept q t ne d zero h e = e
  seek_kept q t ne d (suc n) h e = elim (meets m h q) [
    | free_here g ↦
        let is : h ≡ t = some_eq (sym (seek-free n m h q g) ∙ e) in
        seek-free n more h q (slot_other h (λ z. d (sym is ∙ z)) ∙ g) ∙ ap some is
    | key_here w g ↦
        let is : h ≡ t = some_eq (sym (seek-key n m h w q g) ∙ e) in
        seek-key n more h w q (slot_other h (λ z. d (sym is ∙ z)) ∙ g) ∙ ap some is
    | other_here x g f ↦
        let rest : seek n more ((h + 1) % length more) q ≡ some t =
          ap (λ z. seek n more ((h + 1) % z) q) (length-set m s (some (k, v)))
          ∙ seek_kept q t ne d n ((h + 1) % length m) (sym (seek-other n m h x q g f) ∙ e) in
        elim (ℕ_discrete h s) [
          | yes is ↦ seek-other n more h (k, v) q (ap (slot more) is ∙ slot_same) ne ∙ rest
          | no c ↦ seek-other n more h x q (slot_other h c ∙ g) f ∙ rest
        ]
  ]

  -- A key of the changed map stands where its loop stops.
  module _ (map : IsMap m) (end : seek (length m) m (home m k) k ≡ some s) where
    home-more : (q : List ℕ) → home more q ≡ home m q
    home-more q = ap (λ z. tk_fnv q % z) (length-set m s (some (k, v)))

    -- The loop of the changed map in terms of the lengths of the old one.
    seek-more :
        (q : List ℕ) → seek (length more) more (home more q) q ≡ seek (length m) more (home m q) q
    seek-more q = ap (λ z. seek z more (tk_fnv q % z) q) (length-set m s (some (k, v)))

    more-IsMap : used more < length m → IsMap more
    more-IsMap room = record {
      room = subst (λ z. used more < z) (sym (length-set m s (some (k, v)))) room;
      stands = λ t q w e. seek-more q ∙ (elim (ℕ_discrete t s) [
        | yes is ↦
            let key : k ≡ q =
              ap (λ x. x.0) (some_eq (sym slot_same ∙ ap (slot more) (sym is) ∙ e)) in
            subst (λ z. seek (length m) more (home m z) z ≡ some t) key
              (seek_self (length m) (home m k) end ∙ ap some (sym is))
        | no d ↦
            let old : slot m t ≡ some (q, w) = sym (slot_other t d) ∙ e in
            let at = map.stands t q w old in
            elim (Bool-cases (same_bytes k q)) [
              | inl f ↦
                  let key = same_bytes-eq k q f in
                  absurd (
                    d (some_eq (sym at ∙ ap (λ z. seek (length m) m (home m z) z) (sym key) ∙ end)))
              | inr f ↦ seek_kept q t f d (length m) (home m q) at
            ]
      ]);
    }

    hm_get_self : hm_get more k ≡ some (some v)
    unfolding hm_get entry_value
    hm_get_self =
        get_from-seek (length more) more (home more k) k s
          (seek-more k ∙ seek_self (length m) (home m k) end)
        ∙ ap (λ o. some (entry_value o)) slot_same

    free_before :
        (q : List ℕ) (t : ℕ)
        → same_bytes k q ≡ false
        → seek (length m) m (home m q) q ≡ some t
        → t ≡ s
        → entry_value (slot m t) ≡ none
    unfolding entry_value
    free_before q t ne e is = elim (seek-Meets (length m) m (home m q) q t e) [
      | inl g ↦ ap entry_value g
      | inr w ↦
          let taken : slot m s ≡ some (q, w.0) = ap (slot m) (sym is) ∙ w.1 in
          elim here [
            | inl g ↦ let no_slot = sym g ∙ taken in cc
            | inr c ↦ absurd (differ k q ne (ap (λ x. x.0) (some_eq (sym c.1 ∙ taken))))
          ]
    ]

    free_behind :
        (q : List ℕ) (t r : ℕ)
        → same_bytes k q ≡ false
        → seek (length m) m (home m q) q ≡ some t
        → t ≡ s
        → seek (length more) more (home more q) q ≡ some r
        → entry_value (slot more r) ≡ none
    unfolding entry_value
    free_behind q t r ne e is f = elim (seek-Meets (length more) more (home more q) q r f) [
      | inl g ↦ ap entry_value g
      | inr w ↦ elim (ℕ_discrete r s) [
        | yes at ↦ absurd (
            differ k q ne (ap (λ x. x.0) (some_eq (sym slot_same ∙ ap (slot more) (sym at) ∙ w.1))))
        | no d ↦
            absurd (d (some_eq (sym (map.stands r q w.0 (sym (slot_other r d) ∙ w.1)) ∙ e) ∙ is))
      ]
    ]

    hm_get_other :
        used more < length more → (q : List ℕ) → same_bytes k q ≡ false → hm_get more q ≡ hm_get m q
    unfolding hm_get entry_value
    hm_get_other room q ne =
        let (t, e) = seek_total m (tk_fnv q) q map.room in
        let old = get_from-seek (length m) m (home m q) q t e in
        elim (ℕ_discrete t s) [
          | no d ↦
              get_from-seek (length more) more (home more q) q t
                (seek-more q ∙ seek_kept q t ne d (length m) (home m q) e)
              ∙ ap (λ o. some (entry_value o)) (slot_other t d)
              ∙ sym old
          | yes is ↦
              let (r, f) = seek_total more (tk_fnv q) q room in
              get_from-seek (length more) more (home more q) q r f
              ∙ ap some (free_behind q t r ne e is f ∙ sym (free_before q t ne e is))
              ∙ sym old
        ]

-- What hm_put makes of a map.
pub record Changed (m : HMap) (k : List ℕ) (v : ℕ) : Type 0 where
  pub after : HMap
  pub is : hm_put m k v ≡ some after
  pub map : IsMap after
  pub size : length after ≡ length m
  pub count : used after ≤ suc (used m)
  pub gets : (q : List ℕ) → hm_get after q ≡ (if same_bytes k q then some (some v) else hm_get m q)

pub hm_put-Changed :
    (m : HMap) (k : List ℕ) (v : ℕ) → IsMap m → suc (used m) < length m → Changed m k v
unfolding hm_put
hm_put-Changed m k v map room =
    let (s, end) = seek_total m (tk_fnv k) k map.room in
    let lt = seek-lt (length m) m (home m k) k s (mod-lt (tk_fnv k) (omega (arith, room))) end in
    let here = seek-Meets (length m) m (home m k) k s end in
    let after = set m s (some (k, v)) in
    let few = used-set_le m s (k, v) in
    let size = length-set m s (some (k, v)) in
    let left : used after < length m = omega (arith, few, room) in
    record {
      after = after;
      is = put_from-seek (length m) m (home m k) k v s end;
      map = more-IsMap m k v s lt here map end left;
      size = size;
      count = few;
      gets = λ q. elim (Bool-cases (same_bytes k q)) [
        | inl f ↦
            rw (f)
              (ap (hm_get after) (sym (same_bytes-eq k q f)) ∙ hm_get_self m k v s lt here map end)
        | inr f ↦
            rw (f) (
              hm_get_other m k v s lt here map end (subst (λ z. used after < z) (sym size) left) q
                f)
      ];
    }
