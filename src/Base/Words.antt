-- ===== src/Base/Words.antt =====
-- Machine words as native numbers, and the 64-bit FNV-1a hash that the loaders and caches use.
use Prim.Native.Nat.{ℕ, ◌*◌, ◌%◌, ◌^◌, ◌-◌, bit_xor}
use Prim.Native.Char.{code}
use Prim.Native.String.{String}
use mathlib.Core.List.{List, [], ◌∷◌}
use qwanto.Base.Tests.{◌==◌, if◌then◌else◌}

abbrev u64_mod : ℕ
u64_mod = 2 ^ 64

abbrev pub u64_max : ℕ
u64_max = 2 ^ 64 - 1

-- A uint64_t result: wrap round.
abbrev pub u64 : ℕ → ℕ
u64 n = n % 2 ^ 64

-- The bytes of a C string: those before the first NUL.
unfoldable pub c_string : List ℕ → List ℕ
c_string [] = []
c_string (c ∷ cs) = let rest = c_string cs in if c == 0 then [] else c ∷ rest

-- FNV-1a over bytes, from a start value: `h ^= c; h *= 0x100000001b3`.
unfoldable pub fnv1a : ℕ → List ℕ → ℕ
fnv1a h [] = h
fnv1a h (c ∷ cs) = fnv1a (u64 (bit_xor h c * 0x100000001b3)) cs

abbrev pub fnv_offset : ℕ
fnv_offset = 0xcbf29ce484222325

-- The code points of a text: its bytes, where it is ASCII.
abbrev pub codes : String → List ℕ
codes String.[] = []
codes (String.◌∷◌ c s) = code c ∷ codes s
