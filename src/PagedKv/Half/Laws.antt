-- ===== src/PagedKv/Half/Laws.antt =====
-- What the conversions between half and single floats keep.
use qwanto.Base.{ℕ, ◌+◌, ◌-◌, ◌/◌, ◌%◌, ◌^◌, ◌≤◌, ◌<◌, ◌≡◌, arith, leb, ◌==◌, if◌then◌else◌}
use qwanto.PagedKv.Half.{half_to_float, float_to_half}

-- A half float with its subnormals flushed to a signed zero and its NaNs merged into one of each sign.
abbrev pub flushed : ℕ → ℕ
flushed h =
    if h % 2 ^ 15 / 1024 == 0
    then h - h % 2 ^ 15
    else if leb (h % 2 ^ 15) 0x7c00
    then h
    else h - h % 2 ^ 15 + 0x7c01

-- A half float comes back from a single float as it was, but for subnormals, which become a zero of their
-- sign, and NaNs, which become one NaN of their sign.
pub float_to_half-half_to_float : (h : ℕ) → h < 2 ^ 16 → float_to_half (half_to_float h) ≡ flushed h
unfolding float_to_half half_to_float
float_to_half-half_to_float h lt = ground arith

-- Between positive single floats that are not NaN the conversion keeps the order, and gives a half float
-- up to infinity.
float_to_half_mono :
    (a b : ℕ)
    → a ≤ b
    → b ≤ 0x7f800000
    → (float_to_half a ≤ float_to_half b) × (float_to_half b ≤ 0x7c00)
unfolding float_to_half
float_to_half_mono a b h k = ground arith
