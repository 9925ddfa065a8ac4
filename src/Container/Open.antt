-- ===== src/Container/Open.antt =====
-- `qwn_open` of c/qwanto_native.c, stage by stage, with what each failure releases.
pub mod Leaks
pub mod Indexes
pub mod Stages
pub mod Sound
pub mod Overflow
use qwanto.Base.{
  ℕ, zero, suc, ◌+◌, ◌-◌, ◌*◌, Bool, true, false, ◌||◌, ◌&&◌, not, Option, none, some, List, [],
  ◌∷◌, take, ltb, leb, ◌==◌, if◌then◌else◌, u64, c_string, fnv1a, fnv_offset,
}
use qwanto.Container.Desc.{TensorDesc, header_size, validate_desc}
use qwanto.Container.Image.{
  Image, u64_at, desc_at, header_at, desc_bytes, inline_max, Header, OverflowHeader,
  overflow_header_at, overflow_header_bytes,
}
use qwanto.Container.Model.{
  Entry, Model, Held, Loader, zero_model, close_file, release, free_buffers, close,
}

-- ERR_IO, ERR_TRUNC, ERR_NO_TAIL, ERR_BAD_MAGIC, ERR_VERSION, ERR_DTYPE
pub data Error : Type 0 where
  io trunc no_tail bad_magic bad_version bad_dtype : Error

-- A failure keeps the model as the code leaves it.
pub data Outcome : Type 0 where
  ok : Loader → Outcome
  fail : Error → Loader → Outcome

infixl 5 ◌>>=◌
abbrev pub ◌>>=◌ : Outcome → (Loader → Outcome) → Outcome
ok s >>= f = f s
fail e s >>= f = fail e s

-- What the calls to the system return: a descriptor, a size, whether the mapping and the three
-- allocations succeed, and the bytes of the file.
pub record System : Type 0 where
  pub open_result : Option ℕ
  pub size_result : Option ℕ
  pub maps_file : Bool
  pub allocates_hashes : Bool
  pub allocates_offsets : Bool
  pub allocates_descs : Bool
  pub file : Image

-- "QWANTO_NATIVE_V1"
abbrev pub magic_bytes : List ℕ
magic_bytes =
    b'Q' ∷ b'W' ∷ b'A' ∷ b'N' ∷ b'T' ∷ b'O' ∷ b'_' ∷ b'N' ∷ b'A' ∷ b'T' ∷ b'I' ∷ b'V' ∷ b'E' ∷ b'_'
    ∷ b'V' ∷ b'1' ∷ []

-- `memcmp`, `strcmp`: equality of two runs of bytes.
unfoldable pub same_bytes : List ℕ → List ℕ → Bool
same_bytes [] [] = true
same_bytes [] (y ∷ ys) = false
same_bytes (x ∷ xs) [] = false
same_bytes (x ∷ xs) (y ∷ ys) = let rest = same_bytes xs ys in if x == y then rest else false

-- `qwn_hash_name`
unfoldable pub hash_name : List ℕ → ℕ
hash_name name = fnv1a fnv_offset (c_string name)

unfoldable pub open_file : System → Held → Outcome
open_file sys held = elim sys.open_result [
  | none ↦ fail io (record { model = record zero_model { fd = none }; held = held })
  | some n ↦ ok (record {
    model = record zero_model { fd = some n };
    held = record held { fds = n ∷ held.fds };
  })
]

unfoldable pub stat_file : System → Loader → Outcome
stat_file sys s = elim sys.size_result [
  | none ↦ fail trunc (close_file s)
  | some size ↦
      let sized : Loader = record s { model = record m { file_size = size } } in
      if ltb size (header_size + 8) then fail trunc (close_file sized) else ok sized
]
  where
    open s use {model as m}

unfoldable pub map_file : System → Loader → Outcome
map_file sys s =
    if sys.maps_file
    then ok (record {
      model = record m { base = some sys.file };
      held = record held { maps = held.maps + 1 };
    })
    else fail io (close_file s)
  where
    open s use {model as m, held}

unfoldable pub read_tail : System → Loader → Outcome
read_tail sys s =
    let tail = u64_at sys.file (m.file_size - 8) in
    let s' : Loader = record s { model = record m { tail_offset = tail } } in
    if ltb tail header_size || ltb (m.file_size - 8) tail then fail no_tail (release s') else ok s'
  where
    open s use {model as m}

-- The header is copied, and its inline count is cut off at QWN_INLINE_MAX.
abbrev clamped : Header → Header
clamped h = record h {
  inline_count = if ltb inline_max h.inline_count then inline_max else h.inline_count;
}

unfoldable pub read_header : System → Loader → Outcome
read_header sys s =
    let h0 = header_at sys.file 0 in
    if not (same_bytes h0.magic magic_bytes)
    then fail bad_magic (release s)
    else if not (h0.version == 1)
    then fail bad_version (release s)
    else ok (record s { model = record m { hdr = clamped h0 } })
  where
    open s use {model as m}

-- Whether a descriptor passes in a file of this size with this tail.
unfoldable pub admits : ℕ → ℕ → TensorDesc → Bool
admits size tail t = if not (validate_desc t size) || leb tail t.byte_offset then false else true

-- The loop over the inline descriptors gives their hashes; `none` is the failure.
unfoldable pub scan_inline : ℕ → ℕ → List TensorDesc → Option (List ℕ)
scan_inline size tail [] = some []
scan_inline size tail (t ∷ ts) = elim (admits size tail t) [
  | false ↦ none
  | true ↦ elim (scan_inline size tail ts) [ none ↦ none | some hs ↦ some (hash_name t.name ∷ hs) ]
]

-- The part of the inline index that is in use.
unfoldable pub inline_descs : Model → List TensorDesc
inline_descs m = take m.hdr.inline_count m.hdr.inline_index

unfoldable pub read_inline : Loader → Outcome
read_inline s = elim (scan_inline m.file_size m.tail_offset (inline_descs m)) [
  | none ↦ fail bad_dtype (release s)
  | some hashes ↦ ok (record s { model = record m { inline_hashes = hashes } })
]
  where
    open s use {model as m}

-- The checks of the overflow header, in uint64_t.
unfoldable pub overflow_bad : ℕ → ℕ → ℕ → OverflowHeader → Bool
overflow_bad size tail expected oh =
    not (oh.desc_size == desc_bytes)
    || ltb oh.desc_offset (u64 (tail + overflow_header_bytes))
    || ltb oh.index_offset (u64 (oh.desc_offset + oh.count * desc_bytes))
    || ltb (size - 8) oh.index_offset
    || ltb (size - 8 - oh.index_offset) (oh.count * 16)
    || not (oh.count == expected)

pub data Scan : Type 0 where
  done : List Entry → Scan
  bad : Error → Scan

abbrev cons_entry : Entry → Scan → Scan
cons_entry e (done es) = done (e ∷ es)
cons_entry e (bad err) = bad err

-- The test on a descriptor's offset, with the wrap of `off + sizeof(QwnTensorDesc)`.
unfoldable pub offset_bad : OverflowHeader → ℕ → Bool
offset_bad oh off = ltb off oh.desc_offset || ltb oh.index_offset (u64 (off + desc_bytes))

-- The loop over the overflow index: `n` entries left, the next one at `p`.
unfoldable pub scan_overflow : Image → ℕ → ℕ → OverflowHeader → ℕ → ℕ → Scan
scan_overflow file size tail oh zero p = done []
scan_overflow file size tail oh (suc n) p =
    let off = u64_at file (p + 8) in
    let t = desc_at file off in
    let rest = scan_overflow file size tail oh n (p + 16) in
    if offset_bad oh off
    then bad trunc
    else if not (admits size tail t)
    then bad bad_dtype
    else cons_entry (record { hash = u64_at file p; offset = off; desc = t }) rest

-- The overflow arrays are there, and the loop fills them.
unfoldable pub fill_overflow : System → OverflowHeader → Loader → Outcome
fill_overflow sys oh s =
    elim (scan_overflow sys.file m.file_size m.tail_offset oh oh.count oh.index_offset) [
      | done es ↦ ok (record s { model = record m { overflow = es } })
      | bad e ↦ fail e (close s)
    ]
  where
    open s use {model as m}

abbrev allocated : Bool → ℕ
allocated b = if b then 1 else 0

-- How many of the three arrays are allocated.
unfoldable pub arrays : System → ℕ
arrays sys =
    allocated sys.allocates_hashes + allocated sys.allocates_offsets + allocated sys.allocates_descs

-- The count is stored, and the arrays are allocated: where one is not, the others are freed, and the model
-- keeps the count and the pointers.
unfoldable pub alloc_overflow : System → OverflowHeader → Loader → Outcome
alloc_overflow sys oh s =
    let counted : Loader = record {
      model = record m { overflow_count = oh.count; buffers = arrays sys };
      held = record held { heap = held.heap + arrays sys };
    } in
    if not (oh.count == 0) && ltb (arrays sys) 3
    then fail io (free_buffers (release counted))
    else fill_overflow sys oh counted
  where
    open s use {model as m, held}

unfoldable pub read_overflow : System → Loader → Outcome
read_overflow sys s =
    let oh = overflow_header_at sys.file m.tail_offset in
    if leb m.hdr.n_tensors m.hdr.inline_count
    then ok s
    else if ltb m.file_size (header_size + 8)
    then fail no_tail (release s)
    else if ltb (m.file_size - 8 - m.tail_offset) overflow_header_bytes
    then fail no_tail (release s)
    else if overflow_bad m.file_size m.tail_offset (m.hdr.n_tensors - m.hdr.inline_count) oh
    then fail trunc (release s)
    else alloc_overflow sys oh s
  where
    open s use {model as m}

-- `qwn_open`
unfoldable pub open_model : System → Held → Outcome
open_model sys held = do
  opened ← open_file sys held
  sized ← stat_file sys opened
  mapped ← map_file sys sized
  tailed ← read_tail sys mapped
  headed ← read_header sys tailed
  indexed ← read_inline headed
  read_overflow sys indexed
