-- ===== src/Container/Open/Stages.antt =====
-- What the stages of `qwn_open` leave when they succeed.
use qwanto.Base.{
  ℕ, ◌+◌, ◌≤◌, Bool, true, false, [], ◌≡◌, refl, sym, ◌∙◌, inl, inr, arith, Option-cases, All,
  All-mono, length, leb, if◌then◌else◌, map,
}
use qwanto.Container.Desc.{header_size}
use qwanto.Container.Image.{Image, Header, header_at, OverflowHeader, inline_max}
use qwanto.Container.Open.Indexes.{
  Admitted, Scan-cases, scan_inline-Admitted, scan_inline-hashes, scan_overflow-Scanned,
}
use qwanto.Container.Model.{Model, Held, Loader}
use qwanto.Container.Open.{
  Error, Outcome, ok, fail, ◌>>=◌, System, open_file, stat_file, map_file, read_tail, read_header,
  read_inline, fill_overflow, scan_overflow, Scan, scan_inline, inline_descs, same_bytes,
  magic_bytes, hash_name, overflow_bad,
}

abbrev pub OnSuccess : (Loader → Type 0) → Outcome → Type 0
OnSuccess P (ok s) = P s
OnSuccess P (fail e s) = Unit

pub >>=-OnSuccess :
    (P Q : Loader → Type 0) (o : Outcome) (f : Loader → Outcome)
    → OnSuccess P o
    → ((s : Loader) → P s → OnSuccess Q (f s))
    → OnSuccess Q (o >>= f)
>>=-OnSuccess P Q (ok s) f h k = k s h
>>=-OnSuccess P Q (fail e s) f h k = tt

abbrev pub IsEmpty : Loader → Type 0
IsEmpty s = (s.model.overflow ≡ []) × (s.model.overflow_count ≡ 0)

abbrev pub IsSized : Loader → Type 0
IsSized s = IsEmpty s × (header_size + 8 ≤ s.model.file_size)

abbrev pub IsTailed : Loader → Type 0
IsTailed s =
    IsEmpty s × (header_size ≤ s.model.tail_offset) × (s.model.tail_offset + 8 ≤ s.model.file_size)

-- The header that a model carries.
pub record IsHeader (h : Header) : Type 0 where
  pub magic : same_bytes h.magic magic_bytes ≡ true
  pub version : h.version ≡ 1
  pub inline_le : h.inline_count ≤ inline_max
  pub index : length h.inline_index ≡ inline_max

abbrev pub IsHeaded : Loader → Type 0
IsHeaded s = IsTailed s × IsHeader s.model.hdr

-- What a successful `qwn_open` guarantees of the model.
pub record IsOpen (m : Model) : Type 0 where
  pub tail_low : header_size ≤ m.tail_offset
  pub tail_high : m.tail_offset + 8 ≤ m.file_size
  pub header : IsHeader m.hdr
  pub inline : All (Admitted m.file_size m.tail_offset) (inline_descs m)
  pub hashes : m.inline_hashes ≡ map (λ t. hash_name t.name) (inline_descs m)
  pub overflow : All (λ e. Admitted m.file_size m.tail_offset e.desc) m.overflow
  pub counted : length m.overflow ≡ m.overflow_count
  pub complete : m.hdr.n_tensors ≤ m.hdr.inline_count + m.overflow_count

pub open_file-IsEmpty : (sys : System) (held : Held) → OnSuccess IsEmpty (open_file sys held)
unfolding open_file
open_file-IsEmpty sys held = ground arith

pub stat_file-IsEmpty :
    (sys : System) (s : Loader) → IsEmpty s → OnSuccess IsSized (stat_file sys s)
unfolding stat_file
stat_file-IsEmpty sys s h = ground arith

pub map_file-IsEmpty : (sys : System) (s : Loader) → IsSized s → OnSuccess IsSized (map_file sys s)
unfolding map_file
map_file-IsEmpty sys s h = ground arith

pub read_tail-IsTailed :
    (sys : System) (s : Loader) → IsSized s → OnSuccess IsTailed (read_tail sys s)
unfolding read_tail
read_tail-IsTailed sys s h = ground arith

length-index : (file : Image) → length (header_at file 0).inline_index ≡ inline_max
unfolding header_at
length-index file = refl

pub read_header-IsHeaded :
    (sys : System) (s : Loader) → IsTailed s → OnSuccess IsHeaded (read_header sys s)
unfolding read_header
read_header-IsHeaded sys s h = ground (arith, length-index sys.file)

abbrev pub IsIndexed : Loader → Type 0
IsIndexed s =
    IsHeaded s
    × All (Admitted s.model.file_size s.model.tail_offset) (inline_descs s.model)
    × (s.model.inline_hashes ≡ map (λ t. hash_name t.name) (inline_descs s.model))

-- All of that but the empty overflow index.
abbrev pub IsChecked : Loader → Type 0
IsChecked s =
    (header_size ≤ s.model.tail_offset)
    × (s.model.tail_offset + 8 ≤ s.model.file_size)
    × IsHeader s.model.hdr
    × All (Admitted s.model.file_size s.model.tail_offset) (inline_descs s.model)
    × (s.model.inline_hashes ≡ map (λ t. hash_name t.name) (inline_descs s.model))

pub read_inline-IsIndexed : (s : Loader) → IsHeaded s → OnSuccess IsIndexed (read_inline s)
unfolding read_inline inline_descs
read_inline-IsIndexed s h =
    elim (Option-cases (scan_inline m.file_size m.tail_offset (inline_descs m))) [
      | inl e ↦ ground arith
      | inr (hs, e) ↦
          rw (e, read_inline)
            (
              h,
              scan_inline-Admitted m.file_size m.tail_offset (inline_descs m) e,
              scan_inline-hashes m.file_size m.tail_offset (inline_descs m) e,
            )
    ]
  where
    open s use {model as m}

pub fill_overflow-IsOpen :
    (sys : System) (oh : OverflowHeader) (s : Loader)
    → IsChecked s
    → s.model.overflow_count ≡ oh.count
    → s.model.hdr.n_tensors ≤ s.model.hdr.inline_count + oh.count
    → OnSuccess (λ t. IsOpen t.model) (fill_overflow sys oh s)
unfolding fill_overflow inline_descs
fill_overflow-IsOpen sys oh s h c n = elim (Scan-cases scan) [
  | inr (err, e) ↦ rw (e, fill_overflow) tt
  | inl (es, e) ↦
      let scanned =
        scan_overflow-Scanned sys.file m.file_size m.tail_offset oh oh.count oh.index_offset es e in
      rw (e, fill_overflow)
        (record {
          tail_low = h.0;
          tail_high = h.1;
          header = h.2;
          inline = h.3;
          hashes = h.4;
          overflow = All-mono _ _ (λ e s. s.admitted) es scanned.0;
          counted = scanned.1 ∙ sym c;
          complete = rw c n;
        })
]
  where
    open s use {model as m}

    scan : Scan
    scan = scan_overflow sys.file m.file_size m.tail_offset oh oh.count oh.index_offset

pub OnSuccess-if :
    (P : Loader → Type 0) (b : Bool) (e : Error) (s : Loader) (o : Outcome)
    → (b ≡ false → OnSuccess P o)
    → OnSuccess P (if b then fail e s else o)
OnSuccess-if P true e s o h = tt
OnSuccess-if P false e s o h = h refl

pub overflow_bad-count :
    (size tail expected : ℕ) (oh : OverflowHeader)
    → overflow_bad size tail expected oh ≡ false
    → oh.count ≡ expected
unfolding overflow_bad
overflow_bad-count size tail expected oh h = ground arith

pub inline_only :
    (s : Loader)
    → IsIndexed s
    → leb s.model.hdr.n_tensors s.model.hdr.inline_count ≡ true
    → IsOpen s.model
inline_only s h few = record {
  tail_low = h.0.0.1;
  tail_high = h.0.0.2;
  header = h.0.1;
  inline = h.1;
  hashes = h.2;
  overflow = rw h.0.0.0.0 tt;
  counted = ground arith;
  complete = ground arith;
}
