-- ===== src/Container/Tests.antt =====
-- A small container file, the run of the loader on it, and the theorems at it.
use qwanto.Base.{
  ap, ℕ, ◌+◌, ◌-◌, ◌^◌, ◌≤◌, ◌≡◌, ◌↔◌, refl, true, Option, none, some, List, [], ◌∷◌, arith,
  replicate, if◌then◌else◌, ◌==◌, c_string, fnv1a, All, ◌%◌,
}
use mathlib.Core.List.{Perm}
use qwanto.Container.Dtype.{payload_of, expected_payload}
use qwanto.Container.Desc.{TensorDesc, fields_bad, shape_product, counts_ok, validate_desc}
use qwanto.Container.Desc.Bounds.{IsSound, validate_desc-IsSound}
use qwanto.Container.Desc.Wrap.{validate_desc_iff}
use qwanto.Container.Image.{
  Image, bytes_at, le_at, u32_at, u64_at, u64s_at, desc_at, descs_at, header_at, OverflowHeader,
}
use qwanto.Container.Model.{Model, Held, Loader}
use qwanto.Container.Open.{
  Outcome, ok, fail, System, same_bytes, hash_name, open_file, stat_file, map_file, read_tail,
  read_header, admits, scan_inline, inline_descs, read_inline, read_overflow, open_model,
}
use qwanto.Container.Open.Indexes.{Admitted}
use qwanto.Container.Open.Sound.{open_model-IsOpen}
use qwanto.Container.Open.Stages.{IsOpen}
use qwanto.Container.Open.Leaks.{Ensures, Closes, open_model-Closes}
use qwanto.Container.Find.{hash_at, name_is, find_inline, find_overflow, find, tensor_at, search}
use qwanto.Container.Find.Laws.{IsIndex, find-tensor_at}
use qwanto.Container.Residency.{
  Plan, plan_residency, collect, placement, sort, insert, assign, choose, charge, fits,
  tensor_priority, contains,
}
use qwanto.Container.Residency.Budget.{
  plan_residency-Budget, IsFull, gpu_total, ram_total, nvme_total,
}
use qwanto.Container.Residency.Order.{plan_residency-IsOrdered, IsOrdered, IsOf, indices, upto}

-- A file with one tensor, `w` of 16 floats, at offset 4096, and its tail offset 4160 in the footer.
abbrev sample_bytes : List (ℕ × ℕ)
sample_bytes =
    (0, b'Q')
    ∷ (1, b'W')
    ∷ (2, b'A')
    ∷ (3, b'N')
    ∷ (4, b'T')
    ∷ (5, b'O')
    ∷ (6, b'_')
    ∷ (7, b'N')
    ∷ (8, b'A')
    ∷ (9, b'T')
    ∷ (10, b'I')
    ∷ (11, b'V')
    ∷ (12, b'E')
    ∷ (13, b'_')
    ∷ (14, b'V')
    ∷ (15, b'1')
    ∷ (16, 1)
    ∷ (28, 1)
    ∷ (32, 1)
    ∷ (112, b'w')
    ∷ (176, 1)
    ∷ (184, 1)
    ∷ (188, 16)
    ∷ (220, 16)
    ∷ (229, 16)
    ∷ (236, 64)
    ∷ (4160, 64)
    ∷ (4161, 16)
    ∷ []

abbrev byte_of : List (ℕ × ℕ) → Image
byte_of [] i = 0
byte_of ((j, b) ∷ bs) i = if i == j then b else byte_of bs i

abbrev sample_system : System
sample_system = record {
  open_result = some 3;
  size_result = some 4168;
  maps_file = true;
  allocates_hashes = true;
  allocates_offsets = true;
  allocates_descs = true;
  file = byte_of sample_bytes;
}

abbrev nothing_held : Held
nothing_held = record { fds = []; maps = 0; heap = 0 }

abbrev loaded : Outcome → Loader
loaded (ok s) = s
loaded (fail e s) = s

abbrev sample_loader : Loader
sample_loader = loaded (open_model sample_system nothing_held)

abbrev sample_model : Model
sample_model = sample_loader.model

abbrev sample_desc : TensorDesc
sample_desc = record {
  name = 119 ∷ replicate 63 0;
  name_len = 1;
  dtype = 0;
  n_dims = 1;
  shape = 16 ∷ 0 ∷ 0 ∷ 0 ∷ [];
  numel = 16;
  byte_offset = 4096;
  byte_size = 64;
  block_q = 0;
}

sample-IsSound : IsSound sample_desc 4168
unfolding validate_desc fields_bad shape_product counts_ok expected_payload payload_of
sample-IsSound = validate_desc-IsSound sample_desc 4168 refl

sample-Admitted : Admitted 4168 4160 sample_desc
sample-Admitted = record { sound = sample-IsSound; before_tail = omega arith }

sample_opens : open_model sample_system nothing_held ≡ ok sample_loader
unfolding open_model open_file stat_file map_file read_tail read_header read_inline read_overflow
    scan_inline inline_descs admits validate_desc fields_bad shape_product counts_ok
    expected_payload payload_of header_at descs_at desc_at bytes_at le_at u32_at u64_at u64s_at
    same_bytes
sample_opens = refl

open_model-IsOpen_example : IsOpen sample_model
open_model-IsOpen_example = open_model-IsOpen sample_system nothing_held sample_opens

open_model-Closes_example :
    Ensures nothing_held (Closes nothing_held) (open_model sample_system nothing_held)
open_model-Closes_example = open_model-Closes sample_system nothing_held

validate_desc_iff_example : (validate_desc sample_desc 4168 ≡ true) ↔ IsSound sample_desc 4168
validate_desc_iff_example = validate_desc_iff sample_desc 4168 (omega arith)

-- A tensor of 2 ^ 62 + 16 floats in 64 bytes.
abbrev short_desc : TensorDesc
short_desc = record sample_desc {
  n_dims = 2;
  shape = 16 ∷ (2 ^ 58 + 1) ∷ 0 ∷ 0 ∷ [];
  numel = 2 ^ 62 + 16;
}

short-IsSound : IsSound short_desc 4168
unfolding validate_desc fields_bad shape_product counts_ok expected_payload payload_of
short-IsSound = validate_desc-IsSound short_desc 4168 refl

-- One descriptor behind an overflow header at 4160, and its index entry.
abbrev sample_overflow : OverflowHeader
sample_overflow = record { count = 1; desc_size = 136; desc_offset = 4192; index_offset = 4328 }

-- One descriptor at an offset just below 2 ^ 64.
abbrev far_overflow : OverflowHeader
far_overflow = record {
  count = 1;
  desc_size = 136;
  desc_offset = 2 ^ 64 - 100;
  index_offset = 4328;
}

sample-IsOpen : IsOpen sample_model
sample-IsOpen = open_model-IsOpen sample_system nothing_held sample_opens

sample_tensor : tensor_at sample_model 0 ≡ some sample_desc
unfolding tensor_at open_model open_file stat_file map_file read_tail read_header read_inline
    read_overflow scan_inline inline_descs admits validate_desc fields_bad shape_product counts_ok
    expected_payload payload_of header_at descs_at desc_at bytes_at le_at u32_at u64_at u64s_at
    same_bytes
sample_tensor = refl

sample_found : find sample_model (119 ∷ []) ≡ some sample_desc
unfolding find find_inline name_is hash_name c_string fnv1a find_overflow search open_model
    open_file stat_file map_file read_tail read_header read_inline read_overflow scan_inline
    inline_descs admits validate_desc fields_bad shape_product counts_ok expected_payload payload_of
    header_at descs_at desc_at bytes_at le_at u32_at u64_at u64s_at same_bytes
sample_found = refl

-- A second tensor, `v`, in the overflow index.
abbrev second_desc : TensorDesc
second_desc = record sample_desc { name = 118 ∷ replicate 63 0 }

abbrev two_model : Model
two_model = record sample_model {
  hdr = record sample_model.hdr { n_tensors = 2 };
  overflow = record { hash = hash_name second_desc.name; offset = 4192; desc = second_desc } ∷ [];
  overflow_count = 1;
}

second-Admitted : Admitted 4168 4160 second_desc
unfolding validate_desc fields_bad shape_product counts_ok expected_payload payload_of
second-Admitted = record {
  sound = validate_desc-IsSound second_desc 4168 refl;
  before_tail = omega arith;
}

two-IsOpen : IsOpen two_model
unfolding open_model open_file stat_file map_file read_tail read_header read_inline read_overflow
    scan_inline inline_descs admits validate_desc fields_bad shape_product counts_ok
    expected_payload payload_of header_at descs_at desc_at bytes_at le_at u32_at u64_at u64s_at
    same_bytes
two-IsOpen = record {
  tail_low = sample-IsOpen.tail_low;
  tail_high = sample-IsOpen.tail_high;
  header = record {
    magic = sample-IsOpen.header.magic;
    version = sample-IsOpen.header.version;
    inline_le = sample-IsOpen.header.inline_le;
    index = sample-IsOpen.header.index;
  };
  inline = sample-IsOpen.inline;
  hashes = sample-IsOpen.hashes;
  overflow = (second-Admitted, tt);
  counted = refl;
  complete = omega arith;
}

same_place : (i j : ℕ) → i ≡ j → hash_at two_model.overflow i ≤ hash_at two_model.overflow j
same_place i j e = omega (arith, ap (hash_at two_model.overflow) e)

two-IsIndex : IsIndex two_model.overflow
two-IsIndex = record { sorted = λ i j h k. same_place i j (omega arith); hashed = (refl, tt) }

second_tensor : tensor_at two_model 1 ≡ some second_desc
unfolding tensor_at open_model open_file stat_file map_file read_tail read_header read_inline
    read_overflow scan_inline inline_descs admits validate_desc fields_bad shape_product counts_ok
    expected_payload payload_of header_at descs_at desc_at bytes_at le_at u32_at u64_at u64s_at
    same_bytes
second_tensor = refl

find-tensor_at_example :
    (u : TensorDesc) × (find two_model (118 ∷ []) ≡ some u)
    × (c_string u.name ≡ 118 ∷ [])
    × Admitted two_model.file_size two_model.tail_offset u
unfolding c_string
find-tensor_at_example =
    find-tensor_at two_model 1 (118 ∷ []) two-IsOpen two-IsIndex (omega arith) second_tensor refl

abbrev no_plan : Plan
no_plan = record {
  items = [];
  count = 0;
  capacity = 0;
  gpu_bytes = 0;
  ram_bytes = 0;
  nvme_bytes = 0;
}

abbrev planned : Option Plan → Plan
planned none = no_plan
planned (some plan) = plan

-- The tensor goes to the GPU.
abbrev sample_plan : Plan
sample_plan = planned (plan_residency sample_model 100 0 1)

sample_planned : plan_residency sample_model 100 0 1 ≡ some sample_plan
unfolding plan_residency collect tensor_at placement tensor_priority contains hash_name c_string
    fnv1a sort insert assign choose charge fits open_model open_file stat_file map_file read_tail
    read_header read_inline read_overflow scan_inline inline_descs admits validate_desc fields_bad
    shape_product counts_ok expected_payload payload_of header_at descs_at desc_at bytes_at le_at
    u32_at u64_at u64s_at same_bytes
sample_planned = refl

plan_residency-Budget_example :
    (sample_plan.gpu_bytes ≤ 100)
    × (sample_plan.ram_bytes ≤ 0)
    × (sample_plan.gpu_bytes ≡ gpu_total sample_plan.items)
    × (sample_plan.ram_bytes ≡ ram_total sample_plan.items)
    × (sample_plan.nvme_bytes % 2 ^ 64 ≡ nvme_total sample_plan.items % 2 ^ 64)
    × All (IsFull 100 0 sample_plan.gpu_bytes sample_plan.ram_bytes) sample_plan.items
plan_residency-Budget_example =
    plan_residency-Budget sample_model 100 0 1 (omega arith) (omega arith) sample_planned

plan_residency-IsOrdered_example :
    Perm (indices sample_plan.items) (upto 0 sample_model.hdr.n_tensors)
    × All (IsOf sample_model) sample_plan.items
    × IsOrdered sample_plan.items
plan_residency-IsOrdered_example = plan_residency-IsOrdered sample_model 100 0 1 sample_planned
