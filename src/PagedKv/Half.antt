-- ===== src/PagedKv/Half.antt =====
-- The conversions between half and single floats of c/qwn_paged_kv.c, on bit patterns. Shifts and masks
-- are quotients and remainders, and `|` of disjoint bits is a sum.
pub mod Laws
use qwanto.Base.{ℕ, ◌+◌, ◌-◌, ◌*◌, ◌/◌, ◌%◌, ◌^◌, ltb, leb, ◌==◌, if◌then◌else◌}

-- `half_to_float`
unfoldable pub half_to_float : ℕ → ℕ
half_to_float h =
    let sign = h / 2 ^ 15 % 2 in
    let exp = h / 2 ^ 10 % 32 in
    let mant = h % 1024 in
    if exp == 0
    then sign * 2 ^ 31
    else if exp == 31
    then sign * 2 ^ 31 + 0x7f800000 + mant * 2 ^ 13
    else sign * 2 ^ 31 + (exp + 112) * 2 ^ 23 + mant * 2 ^ 13

-- `float_to_half`. With `e = exp - 127 + 15`, `e <= 0` is `exp <= 112` and `e >= 31` is `exp >= 143`.
unfoldable pub float_to_half : ℕ → ℕ
float_to_half b =
    let sign = b / 2 ^ 31 in
    let exp = b / 2 ^ 23 % 256 in
    let mant = b % 2 ^ 23 in
    if exp == 255
    then sign * 2 ^ 15 + 0x7c00 + (if mant == 0 then 0 else 1)
    else if leb exp 112
    then sign * 2 ^ 15
    else if leb 143 exp
    then sign * 2 ^ 15 + 0x7c00
    else sign * 2 ^ 15 + (exp - 112) * 2 ^ 10 + mant / 2 ^ 13
