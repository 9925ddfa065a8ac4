-- ===== src/Tokenizer/Codec.antt =====
-- `pretok_chunk`, `tok_encode`, `tok_decode` and `tok_id_of` of c/tok.h.
use qwanto.Base.{
  ℕ, zero, suc, true, false, Option, none, some, List, [], ◌∷◌, ◌++◌, length, map, take, drop, ltb,
  ◌==◌, if◌then◌else◌,
}
use qwanto.Container.Open.{same_bytes}
use qwanto.Tokenizer.{Tok, chars, unspelled, bytes_of_chars}
use qwanto.Tokenizer.Pieces.{bpe_piece}
use qwanto.Tokenizer.Pattern.{piece_length}

-- What stands behind a text, where another starts with it.
unfoldable pub strip : List ℕ → List ℕ → Option (List ℕ)
strip [] p = some p
strip (c ∷ s) [] = none
strip (c ∷ s) (b ∷ p) = elim (c == b) [ true ↦ strip s p | false ↦ none ]

-- The first special token that the text starts with, with what stands behind it.
unfoldable pub hit : List (List ℕ × ℕ) → List ℕ → Option (ℕ × List ℕ)
hit [] p = none
hit (x ∷ xs) p = elim (ltb 0 (length x.0)) [
  | false ↦ hit xs p
  | true ↦ elim (strip x.0 p) [ none ↦ hit xs p | some q ↦ some (x.1, q) ]
]

-- `tok_id_of`
unfoldable pub id_of : List (List ℕ × ℕ) → List ℕ → Option ℕ
id_of [] s = none
id_of (x ∷ xs) s = if same_bytes x.0 s then some x.1 else id_of xs s

module _ (T : Tok) where
  -- The loop, on the code points that are left.
  unfoldable pub pieces_from : ℕ → List (ℕ × List ℕ) → List ℕ
  pieces_from zero xs = []
  pieces_from (suc n) [] = []
  pieces_from (suc n) (x ∷ xs) =
      let k = piece_length T (map (λ y. y.0) (x ∷ xs)) in
      bpe_piece T (bytes_of_chars (take k (x ∷ xs))) ++ pieces_from n (drop k (x ∷ xs))

  -- `pretok_chunk`
  unfoldable pub pretok_chunk : List ℕ → List ℕ
  pretok_chunk p = let xs = chars (length p) p in pieces_from (length xs) xs

  -- The text before the next special token, and the token.
  unfoldable pub next_special : List ℕ → List ℕ × Option (ℕ × List ℕ)
  next_special [] = ([], none)
  next_special (b ∷ p) = elim (hit T.sp (b ∷ p)) [
    | some x ↦ ([], some x)
    | none ↦ let (chunk, h) = next_special p in (b ∷ chunk, h)
  ]

  -- The loop of `tok_encode`; each turn but the last takes a special token.
  unfoldable pub encode_from : ℕ → List ℕ → List ℕ
  encode_from zero p = []
  encode_from (suc n) p =
      let (chunk, h) = next_special p in
      pretok_chunk chunk ++ (elim h [ none ↦ [] | some x ↦ x.0 ∷ encode_from n x.1 ])

  -- `tok_encode`: each write is behind a test of the room.
  unfoldable pub tok_encode : List ℕ → ℕ → List ℕ
  tok_encode text room = take room (encode_from (suc (length text)) text)

  unfoldable pub id_text : ℕ → List ℕ
  id_text id = elim (T.id2str id) [
    | none ↦ []
    | some x ↦ elim x.1 [ true ↦ x.0 | false ↦ unspelled (chars (length x.0) x.0) ]
  ]

  unfoldable pub texts : List ℕ → List ℕ
  texts [] = []
  texts (id ∷ ids) = id_text id ++ texts ids

  -- `tok_decode`, where each write is behind a test of the room.
  unfoldable pub tok_decode : List ℕ → ℕ → List ℕ
  tok_decode ids room = take room (texts ids)
