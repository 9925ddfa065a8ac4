-- ===== src/Container/Find/Laws.antt =====
-- `qwn_find` and `qwn_tensor_at` in a model that `qwn_open` opened.
use qwanto.Base.{
  ℕ, zero, suc, ◌-◌, ◌^◌, ◌<◌, ◌≡◌, ap, ◌∙◌, ◌≢◌, inl, inr, true, false, Option, none, some, List,
  [], ◌∷◌, map, get_elem?, length, All, arith, Bool-cases, Option-cases, c_string, get_elem?-All,
  get_elem?-take, get_elem?-some, get_elem?-lt, ltb, none_ne_some, subst, some_eq,
}
use qwanto.Container.Desc.{TensorDesc}
use qwanto.Container.Model.{Entry, Model}
use qwanto.Container.Open.{same_bytes, hash_name, inline_descs}
use qwanto.Container.Open.Indexes.{Admitted}
use qwanto.Container.Open.Stages.{IsOpen}
use qwanto.Container.Find.{
  name_is, find_inline, desc_named, find_overflow, find, tensor_at, hash_at,
}
use qwanto.Container.Find.Complete.{IsSorted, find_overflow-finds, or_else_left, or_else_right}
use qwanto.Container.Find.Names.{
  same_bytes_refl, hash_of_named, Yields, or_else-Yields, find_inline-Yields, find_overflow-Yields,
}

Yields-some :
    (P : TensorDesc → Type 0) (name : List ℕ) (o : Option TensorDesc) {t : TensorDesc}
    → Yields P name o
    → o ≡ some t
    → (c_string t.name ≡ name) × P t
Yields-some P name none y e = absurd (none_ne_some e)
Yields-some P name (some u) {t} y e = subst (λ v. (c_string v.name ≡ name) × P v) (some_eq e) y

-- What `qwn_find` returns bears the name that is asked for, and is a descriptor that the loader
-- validated: sound, inside the file, and before the tail.
pub find-Admitted :
    (m : Model) (name : List ℕ) {t : TensorDesc}
    → IsOpen m
    → find m name ≡ some t
    → (c_string t.name ≡ name) × Admitted m.file_size m.tail_offset t
unfolding find
find-Admitted m name {t} opened e =
    Yields-some P name _
      (or_else-Yields P name (find_inline h name m.inline_hashes (inline_descs m)) _
        (find_inline-Yields P name h m.inline_hashes (inline_descs m) opened.inline)
        (find_overflow-Yields P name m.overflow opened.overflow h m.overflow_count))
      e
  where
    P : TensorDesc → Type 0
    P u = Admitted m.file_size m.tail_offset u

    h : ℕ
    h = hash_name name

get_inline :
    (m : Model) (i : ℕ)
    → i < m.hdr.inline_count
    → get_elem? (inline_descs m) i ≡ get_elem? m.hdr.inline_index i
unfolding inline_descs
get_inline m i h = get_elem?-take m.hdr.inline_count i m.hdr.inline_index h

-- Every index below the header's tensor count names a tensor that the loader validated.
tensor_at-Admitted :
    (m : Model) (i : ℕ)
    → IsOpen m
    → i < m.hdr.n_tensors
    → (t : TensorDesc) × (tensor_at m i ≡ some t) × Admitted m.file_size m.tail_offset t
unfolding tensor_at
tensor_at-Admitted m i opened lt = elim (Bool-cases (ltb i m.hdr.inline_count)) [
  | inl low ↦
      let here = get_elem?-some i m.hdr.inline_index (ground (arith, opened.header)) in
      (
        here.0,
        rw (low, here.1),
        get_elem?-All P (inline_descs m) i opened.inline (get_inline m i (ground arith) ∙ here.1),
      )
  | inr high ↦
      let there =
        get_elem?-some (i - m.hdr.inline_count) m.overflow
          (ground (arith, opened.counted, opened.complete)) in
      (
        there.0.desc,
        rw (high, there.1),
        get_elem?-All (λ e. P e.desc) m.overflow (i - m.hdr.inline_count) opened.overflow there.1,
      )
]
  where
    P : TensorDesc → Type 0
    P u = Admitted m.file_size m.tail_offset u

-- The converter's contract for the overflow index, which the loader does not check: sorted by hash,
-- and each hash is that of its tensor's name.
pub record IsIndex (es : List Entry) : Type 0 where
  pub sorted : IsSorted es
  pub hashed : All (λ e. e.hash ≡ hash_name e.desc.name) es

find_inline-finds :
    (name : List ℕ) (ts : List TensorDesc) (i : ℕ) {t : TensorDesc}
    → get_elem? ts i ≡ some t
    → c_string t.name ≡ name
    → find_inline (hash_name name) name (map (λ u. hash_name u.name) ts) ts ≢ none
unfolding find_inline name_is
find_inline-finds name [] i e n = absurd (none_ne_some e)
find_inline-finds name (u ∷ ts) zero {t} e n = ground (
  arith,
  ap (λ (v : TensorDesc). hash_name v.name) (some_eq e),
  ap (λ (v : TensorDesc). same_bytes (c_string v.name) name) (some_eq e),
  hash_of_named name t n,
  same_bytes_refl name,
  ap (λ x. same_bytes x name) n,
)
find_inline-finds name (u ∷ ts) (suc i) e n = ground (arith, find_inline-finds name ts i e n)

find_overflow-named :
    (es : List Entry) (k : ℕ) (name : List ℕ) {x : Entry}
    → IsIndex es
    → get_elem? es k ≡ some x
    → c_string x.desc.name ≡ name
    → find_overflow es (hash_name name) name (length es) ≢ none
unfolding hash_at desc_named name_is
find_overflow-named es k name {x} index e n =
    find_overflow-finds es (hash_name name) name index.sorted k {t = x.desc} (get_elem?-lt k es e)
      (rw (e, hash_at)
        (get_elem?-All (λ y. y.hash ≡ hash_name y.desc.name) es k index.hashed e
          ∙ hash_of_named name x.desc n))
      (rw (e, desc_named) (rw (n, same_bytes_refl name)))

at_inline :
    (m : Model) (i : ℕ) {t : TensorDesc}
    → ltb i m.hdr.inline_count ≡ true
    → tensor_at m i ≡ some t
    → get_elem? (inline_descs m) i ≡ some t
unfolding tensor_at
at_inline m i low e = get_inline m i (ground arith) ∙ rw (low, tensor_at) at e

at_overflow :
    (m : Model) (i : ℕ) {t : TensorDesc}
    → ltb i m.hdr.inline_count ≡ false
    → tensor_at m i ≡ some t
    → (x : Entry) × (get_elem? m.overflow (i - m.hdr.inline_count) ≡ some x) × (x.desc ≡ t)
unfolding tensor_at
at_overflow m i high e = elim (Option-cases (get_elem? m.overflow (i - m.hdr.inline_count))) [
  | inl gone ↦ absurd (ground arith)
  | inr (x, here) ↦ (x, here, ground arith)
]

finds-tensor_at :
    (m : Model) (i : ℕ) (name : List ℕ) {t : TensorDesc}
    → IsOpen m
    → IsIndex m.overflow
    → tensor_at m i ≡ some t
    → c_string t.name ≡ name
    → find m name ≢ none
unfolding find inline_descs
finds-tensor_at m i name {t} opened index e n = elim (Bool-cases (ltb i m.hdr.inline_count)) [
  | inl low ↦
      or_else_left (find_inline (hash_name name) name m.inline_hashes (inline_descs m)) _
        (rw opened.hashes (find_inline-finds name (inline_descs m) i (at_inline m i low e) n))
  | inr high ↦
      let x = at_overflow m i high e in
      or_else_right (find_inline (hash_name name) name m.inline_hashes (inline_descs m)) _ (
        rw (← opened.counted) (
          find_overflow-named m.overflow (i - m.hdr.inline_count) name index x.1
            (ap (λ (d : TensorDesc). c_string d.name) x.2 ∙ n)))
]

-- In an opened model whose overflow index has fewer than 2^30 entries, sorted by hash and hashed by name, as
-- the converter writes it: under the name of a tensor that `qwn_tensor_at` gives, `qwn_find` finds a tensor
-- that bears this name and is one that the loader validated.
pub find-tensor_at :
    (m : Model) (i : ℕ) (name : List ℕ) {t : TensorDesc}
    → IsOpen m
    → IsIndex m.overflow
    → m.overflow_count < 2 ^ 30
    → tensor_at m i ≡ some t
    → c_string t.name ≡ name
    → (u : TensorDesc) × (find m name ≡ some u)
      × (c_string u.name ≡ name)
      × Admitted m.file_size m.tail_offset u
find-tensor_at m i name opened index few e n = elim (Option-cases (find m name)) [
  | inl gone ↦ absurd (finds-tensor_at m i name opened index e n gone)
  | inr (u, found) ↦
      let (named, sound) = find-Admitted m name opened found in (u, found, named, sound)
]
