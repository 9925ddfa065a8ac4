-- ===== src/Tokenizer/Pattern.antt =====
-- The pattern of the pre-tokenizer of c/tok.h.
use qwanto.Base.{
  ℕ, zero, suc, ◌+◌, ◌-◌, Bool, true, false, not, ◌&&◌, ◌||◌, List, [], ◌∷◌, length, min, max, drop,
  ltb, leb, ◌==◌, if◌then◌else◌,
}
use qwanto.Tokenizer.{Tok}

-- The length of the run of code points at the front that pass a test.
unfoldable pub run : (ℕ → Bool) → List ℕ → ℕ
run test [] = 0
run test (c ∷ r) = elim (test c) [ true ↦ suc (run test r) | false ↦ 0 ]

abbrev pub is_newline : ℕ → Bool
is_newline c = (c == 13) || (c == 10)

abbrev low : ℕ → ℕ
low c = if leb b'A' c && leb c b'Z' then c + 32 else c

-- The alternatives of the pattern, on the code points from `cp[i]` on: how many of them one takes, or 0.
unfoldable pub long_contraction : ℕ → List ℕ → Bool
long_contraction d [] = false
long_contraction d (y ∷ r) =
    ((d == b'r') && (low y == b'e'))
    || ((d == b'v') && (low y == b'e'))
    || ((d == b'l') && (low y == b'l'))

unfoldable pub contraction : List ℕ → ℕ
contraction [] = 0
contraction (c ∷ []) = 0
contraction (c ∷ x ∷ r) =
    let d = low x in
    if not (c == 39)
    then 0
    else if long_contraction d r
    then 3
    else if (d == b's') || (d == b't') || (d == b'm') || (d == b'd')
    then 2
    else 0

-- The last line end among the first `n` code points, counted from 1, or 0.
unfoldable pub last_newline : ℕ → List ℕ → ℕ
last_newline zero cs = 0
last_newline (suc n) [] = 0
last_newline (suc n) (c ∷ r) = elim (last_newline n r) [
  | zero ↦ if is_newline c then 1 else 0
  | suc k ↦ suc (suc k)
]

module _ (T : Tok) where
  abbrev pub is_other : ℕ → Bool
  is_other c = not (T.is_s c) && not (T.is_l c) && not (T.is_n c)

  unfoldable pub letters : List ℕ → ℕ
  letters [] = 0
  letters (c ∷ r) =
      if T.is_l c
      then run T.is_l (c ∷ r)
      else if is_newline c || T.is_n c
      then 0
      else if ltb 0 (run T.is_l r)
      then suc (run T.is_l r)
      else 0

  unfoldable pub numerals : List ℕ → ℕ
  numerals cs = min (run T.is_n cs) 3

  unfoldable pub others : List ℕ → ℕ
  others cs = let k = run is_other cs in if k == 0 then 0 else k + run is_newline (drop k cs)

  unfoldable pub punctuation : List ℕ → ℕ
  punctuation [] = 0
  punctuation (c ∷ r) = if (c == 32) && ltb 0 (others r) then suc (others r) else others (c ∷ r)

  unfoldable pub blanks : List ℕ → ℕ
  blanks cs =
      let r = run T.is_s cs in
      let last = last_newline r cs in
      if r == 0
      then 0
      else if ltb 0 last
      then last
      else max 1 (if ltb r (length cs) then r - 1 else r)

  -- The turn of the loop of `pretok_chunk`: the alternatives in their order.
  unfoldable pub piece_length : List ℕ → ℕ
  piece_length cs =
      if ltb 0 (contraction cs)
      then contraction cs
      else if ltb 0 (letters cs)
      then letters cs
      else if ltb 0 (numerals cs)
      then numerals cs
      else if ltb 0 (punctuation cs)
      then punctuation cs
      else if ltb 0 (blanks cs)
      then blanks cs
      else 1
