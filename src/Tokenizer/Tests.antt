-- ===== src/Tokenizer/Tests.antt =====
-- Runs of the tokenizer, and its theorem at a concrete table.
use qwanto.Base.{
  ℕ, ◌<◌, ◌≡◌, Bool, true, false, ◌&&◌, Option, none, some, List, [], ◌∷◌, ◌++◌, length, All, ltb,
  leb, ◌==◌, if◌then◌else◌, codes, arith, refl, sym, ap, ◌∙◌, Bool-cases, inl, inr,
}
use qwanto.Container.Open.{same_bytes}
use qwanto.Container.Find.Names.{same_bytes-eq, same_bytes_refl}
use qwanto.Tokenizer.{
  Tok, spelled, unspelled, chars, u8_next, u8_put, byte2str, byte2cp, byte_cps, cp2byte, last_byte,
  bytes_of_chars,
}
use qwanto.Tokenizer.Pieces.{bpe_piece, merged, merge_at, best_pair, better, ids_of}
use qwanto.Tokenizer.Pattern.{
  piece_length, run, contraction, long_contraction, letters, numerals, others, punctuation, blanks,
  last_newline,
}
use qwanto.Tokenizer.Codec.{
  tok_encode, tok_decode, encode_from, next_special, hit, strip, pretok_chunk, pieces_from,
}
use qwanto.Tokenizer.Bytes.{IsByte, unspelled-spelled}
use qwanto.Tokenizer.Merges.{IsTok}
use qwanto.Tokenizer.Pairs.{Ranked}
use qwanto.Tokenizer.Settled.{merged-Ranked}
use qwanto.Tokenizer.RoundTrip.{tok_decode-tok_encode}

-- The bytes, the token ab with the id 256, and the special token <s>.
abbrev bytes_id : List ℕ → Option ℕ
bytes_id (b ∷ []) = some b
bytes_id (a ∷ b ∷ []) = some 256
bytes_id p = none

abbrev id_bytes : ℕ → List ℕ
id_bytes id = if id == 256 then codes "ab" else id ∷ []

abbrev named_id : List ℕ → Option ℕ → Option ℕ
named_id x none = none
named_id x (some id) = if same_bytes x (spelled (id_bytes id)) && ltb id 257 then some id else none

abbrev toy_vocab : List ℕ → Option ℕ
toy_vocab x = named_id x (bytes_id (unspelled (chars (length x) x)))

abbrev toy_id2str : ℕ → Option (List ℕ × Bool)
toy_id2str id =
    if id == 257
    then some (codes "<s>", true)
    else if ltb id 257
    then some (spelled (id_bytes id), false)
    else none

abbrev is_letter : ℕ → Bool
is_letter c = leb b'a' c && leb c b'z'

abbrev toy : Tok
toy = record {
  vocab = toy_vocab;
  merges = λ k. if same_bytes k (b'a' ∷ 0 ∷ b'b' ∷ []) then some 0 else none;
  id2str = toy_id2str;
  sp = (codes "<s>", 257) ∷ [];
  is_l = is_letter;
  is_n = λ c. leb b'0' c && leb c b'9';
  is_s = λ c. c == 32;
}

encode_test : tok_encode toy (codes "abb <s>a") 9 ≡ 256 ∷ b'b' ∷ 32 ∷ 257 ∷ b'a' ∷ []
unfolding tok_encode encode_from next_special hit strip pretok_chunk pieces_from piece_length run
    contraction long_contraction letters numerals others punctuation blanks last_newline
    bytes_of_chars bpe_piece merged merge_at best_pair better ids_of spelled unspelled chars u8_next
    u8_put byte2str byte2cp byte_cps cp2byte last_byte same_bytes
encode_test = refl

toy-bytes : (b : ℕ) → IsByte b → (id : ℕ) × (toy.vocab (spelled (b ∷ [])) ≡ some id)
toy-bytes b h =
    let read = unspelled-spelled (b ∷ []) (h, tt) in
    let no_pair : (b == 256) ≡ false = ground (arith, h) in
    let small : ltb b 257 ≡ true = ground (arith, h) in
    let same = same_bytes_refl (spelled (b ∷ [])) in
    let s = spelled (b ∷ []) in
    let is : named_id s (some b) ≡ some b = rw (no_pair, same, small) refl in
    (b, ap (λ u. named_id s (bytes_id u)) read ∙ is)

pair_known : toy.vocab (codes "ab") ≡ some 256
unfolding spelled unspelled chars u8_next u8_put byte2str byte2cp byte_cps cp2byte last_byte
    same_bytes
pair_known = refl

pair_parts : (x y : List ℕ) → x ++ (0 ∷ y) ≡ b'a' ∷ 0 ∷ b'b' ∷ [] → x ++ y ≡ codes "ab"
pair_parts [] y e = ground (arith, e)
pair_parts (a ∷ []) y e = ground (arith, e)
pair_parts (a ∷ b ∷ []) y e = ground (arith, e)
pair_parts (a ∷ b ∷ c ∷ []) y e = ground (arith, e)
pair_parts (a ∷ b ∷ c ∷ d ∷ x) y e = ground (arith, e)

toy-closed :
    (x y : List ℕ) (r : ℕ)
    → toy.merges (x ++ (0 ∷ y)) ≡ some r
    → (id : ℕ) × (toy.vocab (x ++ y) ≡ some id)
toy-closed x y r e = elim (Bool-cases (same_bytes (x ++ (0 ∷ y)) (b'a' ∷ 0 ∷ b'b' ∷ []))) [
  | inl f ↦ let is = pair_parts x y (same_bytes-eq _ _ f) in (256, ap toy.vocab is ∙ pair_known)
  | inr f ↦ ground (arith, e, f)
]

small_text : (n : ℕ) → n < 257 → toy_id2str n ≡ some (spelled (id_bytes n), false)
small_text n h =
    let other : (n == 257) ≡ false = ground (arith, h) in
    let below : ltb n 257 ≡ true = ground (arith, h) in rw (other, below) refl

toy-back : (x : List ℕ) (id : ℕ) → toy.vocab x ≡ some id → toy.id2str id ≡ some (x, false)
toy-back x id e = go (bytes_id (unspelled (chars (length x) x))) e
  where
    go : (o : Option ℕ) → named_id x o ≡ some id → toy.id2str id ≡ some (x, false)
    go none f = cc
    go (some n) f = elim (Bool-cases (same_bytes x (spelled (id_bytes n)))) [
      | inr g ↦ ground (arith, f, g)
      | inl g ↦
          let is = same_bytes-eq x _ g in
          let small : n < 257 = ground (arith, f, g) in
          let same : n ≡ id = ground (arith, f, g) in
          ap toy_id2str (sym same) ∙ small_text n small ∙ ap (λ t. some (t, false)) (sym is)
    ]

toy-IsTok : IsTok toy
toy-IsTok = record { bytes = toy-bytes; closed = toy-closed; back = toy-back; literal = (refl, tt) }

sample_bytes : All IsByte (b'a' ∷ b'b' ∷ 195 ∷ 32 ∷ codes "<s>")
sample_bytes = (
  omega arith,
  (omega arith, (omega arith, (omega arith, (omega arith, (omega arith, (omega arith, tt)))))),
)

tok_decode-tok_encode_example :
    tok_decode toy (tok_encode toy (b'a' ∷ b'b' ∷ 195 ∷ 32 ∷ codes "<s>") 7) 7
    ≡ b'a' ∷ b'b' ∷ 195 ∷ 32 ∷ codes "<s>"
tok_decode-tok_encode_example =
    tok_decode-tok_encode toy-IsTok (b'a' ∷ b'b' ∷ 195 ∷ 32 ∷ codes "<s>") 7 7 sample_bytes
      (omega arith) (omega arith)

abbrev three_symbols : List (List ℕ)
three_symbols = (b'a' ∷ []) ∷ (b'b' ∷ []) ∷ (b'b' ∷ []) ∷ []

three_merged : merged toy.merges 3 three_symbols ≡ codes "ab" ∷ codes "b" ∷ []
unfolding merged best_pair better merge_at same_bytes
three_merged = refl

merged-Ranked_example : ¬ Ranked toy.merges 0 (merged toy.merges 3 three_symbols)
merged-Ranked_example = merged-Ranked toy.merges three_symbols 0
