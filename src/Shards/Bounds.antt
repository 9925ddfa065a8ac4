-- ===== src/Shards/Bounds.antt =====
-- Where the tensors of the safetensors index lie in their files.
use qwanto.Base.{
  ℕ, ◌+◌, ◌-◌, ◌^◌, ◌≤◌, ◌≡◌, ◌⊎◌, inl, inr, ℤ, pos, negsuc, ◌||◌, Option, none, some, List, [],
  ◌∷◌, ◌++◌, length, All, All-snoc, ltb, codes, c_string, arith, refl, Bool-cases,
}
use qwanto.Container.Open.{same_bytes}
use qwanto.Container.Image.{bytes_at, u64_at}
use qwanto.Json.{Jval, Fields, no_fields, field, Scan, got, over_read, out_of_fuel, json_get}
use qwanto.Json.Parse.{json_parse}
use qwanto.Json.Terminates.{json_parse_ends}
use qwanto.Shards.{
  max_header, StTensor, ShardFile, Init, ready, exits, read_behind, no_fuel, ◌>>=◌, demand, scanned,
  dtype_code, sum_above, string_of, array_of, first_two, int_of, offsets, index_tensor,
  index_fields, object_of, index_file, index_files,
}

-- Offsets that are accepted are in order and end in the file, or their end wraps past 2^63 where the start
-- of the data is added.
offsets-some :
    (data_start fsz : ℕ) (x y : ℤ) (a b : ℕ)
    → offsets data_start fsz x y ≡ some (a, b)
    → (a ≤ b) × ((data_start + b ≤ fsz) ⊎ (2 ^ 63 ≤ data_start + b))
unfolding offsets sum_above
offsets-some data_start fsz (pos x) (pos y) a b e = grind arith
offsets-some data_start fsz (pos x) (negsuc y) a b e = cc
offsets-some data_start fsz (negsuc x) y a b e = cc

-- Not out of fuel, and `P` of what is ready.
abbrev pub Ends : {A : Type 0} → (A → Type 0) → Init A → Type 0
Ends P (ready a) = P a
Ends P no_fuel = ⊥
Ends P _ = Unit

Ends->>= :
    {A B : Type 0} (P : A → Type 0) (Q : B → Type 0) (r : Init A) (f : A → Init B)
    → Ends P r
    → ((a : A) → P a → Ends Q (f a))
    → Ends Q (r >>= f)
Ends->>= P Q (ready a) f h k = k a h
Ends->>= P Q exits f h k = tt
Ends->>= P Q read_behind f h k = tt
Ends->>= P Q no_fuel f h k = elim h [ ]

Ends-demand :
    {A B : Type 0} (Q : B → Type 0) (o : Option A) (f : A → Init B)
    → ((a : A) → o ≡ some a → Ends Q (f a))
    → Ends Q (demand o >>= f)
Ends-demand Q none f h = tt
Ends-demand Q (some a) f h = h a refl

Ends-scanned :
    {A : Type 0} (r : Scan A)
    → ((v : A) × (r ≡ got v)) ⊎ (r ≡ over_read)
    → Ends (λ a. Unit) (scanned r)
Ends-scanned (got a) h = tt
Ends-scanned over_read h = tt
Ends-scanned out_of_fuel h = elim h [ inl x ↦ cc | inr e ↦ cc ]

-- The tensor is of the file, behind its length field, and ends in the file, or its end is past 2^63.
pub record InFile (f : ShardFile) (t : StTensor) : Type 0 where
  pub of_file : t.fd ≡ f.shard_fd
  pub behind : 8 ≤ t.off
  pub inside : (t.off + t.nbytes ≤ f.size) ⊎ (2 ^ 63 ≤ t.off + t.nbytes)

abbrev pub InSome : List ShardFile → StTensor → Type 0
InSome [] t = ⊥
InSome (f ∷ fs) t = InFile f t ⊎ InSome fs t

-- The header has no NUL byte, behind which the code would read on.
abbrev pub HasText : ShardFile → Type 0
HasText f = let header = bytes_at f.bytes (u64_at f.bytes 0) 8 in c_string header ≡ header

module _ {D : Type 0} (to_int64 : D → ℤ) where
  index_tensor-Ends :
      (f : ShardFile) (hlen : ℕ) (name : List ℕ) (m : Jval D)
      → Ends (InFile f) (index_tensor to_int64 f.shard_fd f.size (8 + hlen) name m)
  unfolding index_tensor
  index_tensor-Ends f hlen name m =
      Ends-demand (InFile f) (string_of (json_get m (codes "dtype"))) _ λ dt _.
        Ends-demand (InFile f) (array_of (json_get m (codes "data_offsets"))) _ λ off _.
          Ends-demand (InFile f) (first_two off) _ λ ends _.
            Ends-demand (InFile f) (array_of (json_get m (codes "shape"))) _ λ shp _.
              Ends-demand (InFile f)
                (offsets (8 + hlen) f.size (int_of to_int64 ends.0) (int_of to_int64 ends.1)) _
                λ ab e. Ends-demand (InFile f) (dtype_code dt) _ λ code _.
                  let (a, b) =
                    offsets-some (8 + hlen) f.size (int_of to_int64 ends.0) (int_of to_int64 ends.1)
                      ab.0 ab.1 e in
                  record { of_file = refl; behind = omega arith; inside = grind arith }

  index_fields-Ends :
      (P : StTensor → Type 0) (f : ShardFile) (hlen : ℕ)
      → ((t : StTensor) → InFile f t → P t)
      → (ts : List StTensor) (fs : Fields D) → All P ts
      → Ends (All P) (index_fields to_int64 f.shard_fd f.size (8 + hlen) ts fs)
  unfolding index_fields
  index_fields-Ends P f hlen g ts no_fields h = h
  index_fields-Ends P f hlen g ts (field name m fs) h =
      elim (Bool-cases (same_bytes (c_string name) (codes "__metadata__"))) [
        | inl e ↦ rw (e, index_fields) (index_fields-Ends P f hlen g ts fs h)
        | inr e ↦
            rw (e, index_fields)
              (Ends->>= (InFile f) (All P)
                (index_tensor to_int64 f.shard_fd f.size (8 + hlen) name m) _
                (index_tensor-Ends f hlen name m)
                (λ t i.
                  index_fields-Ends P f hlen g (ts ++ (t ∷ [])) fs (All-snoc P ts t h (g t i))))
      ]

  module _ (strtod : List ℕ → D × List ℕ)
      (shorter : (p : List ℕ) → length (strtod p).1 ≤ length p) where
    index_file-Ends :
        (P : StTensor → Type 0) (f : ShardFile)
        → ((t : StTensor) → InFile f t → P t)
        → (ts : List StTensor) → All P ts
        → Ends (All P) (index_file to_int64 strtod f ts)
    unfolding index_file
    index_file-Ends P f g ts h =
        let hlen = u64_at f.bytes 0 in
        let text = c_string (bytes_at f.bytes hlen 8) in
        elim (Bool-cases (ltb f.size 8 || (ltb (f.size - 8) hlen || ltb max_header hlen))) [
          | inl e ↦ rw (e, index_file) tt
          | inr e ↦
              rw (e, index_file)
                (Ends->>= (λ a. Unit) (All P) (scanned (json_parse strtod text)) _
                  (Ends-scanned (json_parse strtod text) (json_parse_ends strtod shorter text))
                  (λ root u.
                    Ends-demand (All P) (object_of root) _
                      (λ fs o. index_fields-Ends P f hlen g ts fs h)))
        ]

    files-Ends :
        (P : StTensor → Type 0) (fs : List ShardFile)
        → ((t : StTensor) → InSome fs t → P t)
        → (ts : List StTensor) → All P ts
        → Ends (All P) (index_files to_int64 strtod fs ts)
    unfolding index_files
    files-Ends P [] g ts h = h
    files-Ends P (f ∷ fs) g ts h =
        Ends->>= (All P) (All P) (index_file to_int64 strtod f ts) _
          (index_file-Ends P f (λ t i. g t (inl i)) ts h)
          (λ us k. files-Ends P fs (λ t i. g t (inr i)) us k)

    -- Where no header has a NUL byte and strtod leaves no more than it is given: the indexing of st_init
    -- exits, or comes to read behind the end of a header, or makes an index, in which each tensor is of one of
    -- the files, starts behind its length field, and ends in it, or has an end past 2^63.
    pub index_files-Ends :
        (fs : List ShardFile)
        → All HasText fs
        → (index_files to_int64 strtod fs [] ≡ exits)
          ⊎ (index_files to_int64 strtod fs [] ≡ read_behind)
          ⊎ ((ts : List StTensor) × (index_files to_int64 strtod fs [] ≡ ready ts)
              × All (InSome fs) ts)
    index_files-Ends fs texts =
        ended (index_files to_int64 strtod fs []) (files-Ends (InSome fs) fs (λ t i. i) [] tt)
      where
        ended :
            (r : Init (List StTensor))
            → Ends (All (InSome fs)) r
            → (r ≡ exits)
              ⊎ (r ≡ read_behind)
              ⊎ ((ts : List StTensor) × (r ≡ ready ts) × All (InSome fs) ts)
        ended (ready ts) h = inr (inr (ts, refl, h))
        ended exits h = inl refl
        ended read_behind h = inr (inl refl)
        ended no_fuel h = elim h [ ]
