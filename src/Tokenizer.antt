-- ===== src/Tokenizer.antt =====
-- The byte-level BPE tokenizer of c/tok.h, on tables that are loaded.
pub mod Pieces
pub mod Pattern
pub mod Codec
pub mod Bytes
pub mod Pairs
pub mod Merges
pub mod HashMap
pub mod Load
pub mod Settled
pub mod Split
pub mod RoundTrip
mod Tests
use qwanto.Base.{
  ℕ, zero, suc, ◌+◌, ◌-◌, ◌*◌, ◌/◌, ◌%◌, ◌^◌, Bool, true, false, not, ◌&&◌, ◌||◌, Option, none,
  some, List, [], ◌∷◌, ◌++◌, length, map, min, max, take, drop, get_or, ltb, leb, ◌==◌,
  if◌then◌else◌,
}

-- `Tok`: what `hm_get` answers for a text of `vocab` and for a key of `merges`, `id2str` with `id_added`, and
-- `sp` in its order; beside them the tables of tok_unicode.h.
pub record Tok : Type 0 where
  pub vocab : List ℕ → Option ℕ
  pub merges : List ℕ → Option ℕ
  pub id2str : ℕ → Option (List ℕ × Bool)
  pub sp : List (List ℕ × ℕ)
  pub is_l : ℕ → Bool
  pub is_n : ℕ → Bool
  pub is_s : ℕ → Bool

-- `u8_next` on the byte `c` and those behind it: the code point, and the bytes that it takes.
unfoldable pub u8_next : ℕ → List ℕ → ℕ × ℕ
u8_next c r =
    if ltb c 0x80
    then (c, 1)
    else if (c / 32 == 6) && ltb 0 (length r)
    then (c % 32 * 64 + get_or r 0 0 % 64, 2)
    else if (c / 16 == 0xE) && ltb 1 (length r)
    then (c % 16 * 4096 + get_or r 0 0 % 64 * 64 + get_or r 1 0 % 64, 3)
    else if (c / 8 == 0x1E) && ltb 2 (length r)
    then (c % 8 * 2 ^ 18 + get_or r 0 0 % 64 * 4096 + get_or r 1 0 % 64 * 64 + get_or r 2 0 % 64, 4)
    else (c, 1)

-- `u8_put`; the bytes are casts to char.
unfoldable pub u8_put : ℕ → List ℕ
u8_put cp =
    if ltb cp 0x80
    then cp ∷ []
    else if ltb cp 0x800
    then (0xC0 + cp / 64) ∷ (0x80 + cp % 64) ∷ []
    else if ltb cp 0x10000
    then (0xE0 + cp / 4096) ∷ (0x80 + cp / 64 % 64) ∷ (0x80 + cp % 64) ∷ []
    else (0xF0 + cp / 2 ^ 18 % 16)
      ∷ (0x80 + cp / 4096 % 64)
      ∷ (0x80 + cp / 64 % 64)
      ∷ (0x80 + cp % 64)
      ∷ []

-- The code points of a text, each with its bytes; a turn takes a byte at least.
unfoldable pub chars : ℕ → List ℕ → List (ℕ × List ℕ)
chars zero p = []
chars (suc n) [] = []
chars (suc n) (c ∷ r) = let (cp, k) = u8_next c r in (cp, take k (c ∷ r)) ∷ chars n (drop k (c ∷ r))

abbrev is_direct : ℕ → Bool
is_direct b = (leb 33 b && leb b 126) || (leb 161 b && leb b 172) || (leb 174 b && leb b 255)

-- The loop of `tk_build_bytemap`: the code points of `k` bytes from `b` on, after `n` that are not direct.
unfoldable pub byte_cps : ℕ → ℕ → ℕ → List ℕ
byte_cps zero b n = []
byte_cps (suc k) b n =
    if is_direct b then b ∷ byte_cps k (b + 1) n else (256 + n) ∷ byte_cps k (b + 1) (n + 1)

-- `byte2cp` and `byte2str`
unfoldable pub byte2cp : ℕ → ℕ
byte2cp b = get_or (byte_cps 256 0 0) b 0

unfoldable pub byte2str : ℕ → List ℕ
byte2str b = u8_put (byte2cp b)

-- The entry of `cp2byte` for a code point, where the bytes from `b` on have the code points of the list; a
-- later byte overwrites.
unfoldable pub last_byte : List ℕ → ℕ → ℕ → Option ℕ
last_byte [] b cp = none
last_byte (x ∷ xs) b cp = elim (last_byte xs (b + 1) cp) [
  | some d ↦ some d
  | none ↦ if x == cp then some b else none
]

unfoldable pub cp2byte : ℕ → Option ℕ
cp2byte cp = if ltb cp 1024 then last_byte (byte_cps 256 0 0) 0 cp else none

-- The byte-level text of a piece.
unfoldable pub spelled : List ℕ → List ℕ
spelled [] = []
spelled (b ∷ bs) = byte2str b ++ spelled bs

-- The bytes of a byte-level text.
unfoldable pub unspelled : List (ℕ × List ℕ) → List ℕ
unspelled [] = []
unspelled (x ∷ xs) = elim (cp2byte x.0) [ none ↦ unspelled xs | some b ↦ b ∷ unspelled xs ]

unfoldable pub bytes_of_chars : List (ℕ × List ℕ) → List ℕ
bytes_of_chars [] = []
bytes_of_chars (x ∷ xs) = x.1 ++ bytes_of_chars xs
