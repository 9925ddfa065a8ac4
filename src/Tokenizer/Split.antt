-- ===== src/Tokenizer/Split.antt =====
-- The pieces of the pre-tokenizer of c/tok.h.
use qwanto.Base.{
  ℕ, zero, suc, ◌≤◌, ◌≡◌, Bool, List, [], ◌∷◌, ◌++◌, length, map, take, drop, All, All-take,
  All-drop, arith, refl, sym, ap, subst, ◌∙◌, append_assoc, length-append,
}
use qwanto.Tokenizer.{Tok, u8_next, chars, bytes_of_chars}
use qwanto.Tokenizer.Pieces.{bpe_piece}
use qwanto.Tokenizer.Pattern.{
  run, is_newline, is_other, long_contraction, contraction, last_newline, letters, numerals, others,
  punctuation, blanks, piece_length,
}
use qwanto.Tokenizer.Codec.{texts, id_text, pieces_from, pretok_chunk}
use qwanto.Tokenizer.Bytes.{IsByte, u8_next-step, take-drop, length-drop, bytes_of_chars-chars}
use qwanto.Tokenizer.Merges.{IsTok, Tokens, bpe_piece-Tokens, All-append}

run-length : (test : ℕ → Bool) (cs : List ℕ) → run test cs ≤ length cs
unfolding run
run-length test [] = omega arith
run-length test (c ∷ r) = ground (arith, run-length test r)

contraction-length : (cs : List ℕ) → contraction cs ≤ length cs
unfolding contraction long_contraction
contraction-length [] = omega arith
contraction-length (c ∷ []) = omega arith
contraction-length (c ∷ x ∷ []) = ground arith
contraction-length (c ∷ x ∷ y ∷ r) = ground arith

last_newline-le : (n : ℕ) (cs : List ℕ) → last_newline n cs ≤ n
unfolding last_newline
last_newline-le zero cs = omega arith
last_newline-le (suc n) [] = omega arith
last_newline-le (suc n) (c ∷ r) = ground (arith, last_newline-le n r)

module _ (T : Tok) where
  letters-length : (cs : List ℕ) → letters T cs ≤ length cs
  unfolding letters
  letters-length [] = omega arith
  letters-length (c ∷ r) = ground (arith, run-length T.is_l r, run-length T.is_l (c ∷ r))

  numerals-length : (cs : List ℕ) → numerals T cs ≤ length cs
  unfolding numerals
  numerals-length cs = omega (arith, run-length T.is_n cs)

  others-length : (cs : List ℕ) → others T cs ≤ length cs
  unfolding others
  others-length cs =
      let k = run (is_other T) cs in
      ground
        (arith, run-length (is_other T) cs, run-length is_newline (drop k cs), length-drop k cs)

  punctuation-length : (cs : List ℕ) → punctuation T cs ≤ length cs
  unfolding punctuation
  punctuation-length [] = omega arith
  punctuation-length (c ∷ r) = ground (arith, others-length r, others-length (c ∷ r))

  blanks-length : (cs : List ℕ) → blanks T cs ≤ length cs
  unfolding blanks
  blanks-length cs =
      let r = run T.is_s cs in ground (arith, run-length T.is_s cs, last_newline-le r cs)

  -- A turn of pretok_chunk takes one code point at least, and none behind the chunk.
  pub piece_length-bounds :
      (c : ℕ) (r : List ℕ)
      → (1 ≤ piece_length T (c ∷ r)) × (piece_length T (c ∷ r) ≤ length (c ∷ r))
  unfolding piece_length
  piece_length-bounds c r =
      let cs = c ∷ r in
      (
        ground arith,
        ground (
          arith,
          contraction-length cs,
          letters-length cs,
          numerals-length cs,
          punctuation-length cs,
          blanks-length cs,
        ),
      )

  texts-append : (u v : List ℕ) → texts T (u ++ v) ≡ texts T u ++ texts T v
  unfolding texts
  texts-append [] v = refl
  texts-append (id ∷ u) v =
      ap (λ t. id_text T id ++ t) (texts-append u v)
      ∙ sym (append_assoc (id_text T id) (texts T u) (texts T v))

abbrev IsChar : ℕ × List ℕ → Type 0
IsChar x = All IsByte x.1 × (1 ≤ length x.1)

length-take_suc : (k : ℕ) (c : ℕ) (r : List ℕ) → 1 ≤ k → 1 ≤ length (take k (c ∷ r))
length-take_suc zero c r h = elim h [ ]
length-take_suc (suc k) c r h = omega arith

chars-IsChar : (n : ℕ) (p : List ℕ) → All IsByte p → All IsChar (chars n p)
unfolding chars
chars-IsChar zero p h = tt
chars-IsChar (suc n) [] h = tt
chars-IsChar (suc n) (c ∷ r) h =
    let k = (u8_next c r).1 in
    (
      (All-take IsByte k (c ∷ r) h, length-take_suc k c r (u8_next-step c r)),
      chars-IsChar n (drop k (c ∷ r)) (All-drop IsByte k (c ∷ r) h),
    )

bytes_of_chars-append :
    (xs ys : List (ℕ × List ℕ)) → bytes_of_chars (xs ++ ys) ≡ bytes_of_chars xs ++ bytes_of_chars ys
unfolding bytes_of_chars
bytes_of_chars-append [] ys = refl
bytes_of_chars-append (x ∷ xs) ys =
    ap (λ t. x.1 ++ t) (bytes_of_chars-append xs ys)
    ∙ sym (append_assoc x.1 (bytes_of_chars xs) (bytes_of_chars ys))

bytes_of_chars-IsByte : (xs : List (ℕ × List ℕ)) → All IsChar xs → All IsByte (bytes_of_chars xs)
unfolding bytes_of_chars
bytes_of_chars-IsByte [] h = tt
bytes_of_chars-IsByte (x ∷ xs) h = All-append x.1 _ h.0.0 (bytes_of_chars-IsByte xs h.1)

bytes_of_chars-take :
    (k : ℕ) (x : ℕ × List ℕ) (xs : List (ℕ × List ℕ))
    → All IsChar (x ∷ xs)
    → 1 ≤ k
    → 1 ≤ length (bytes_of_chars (take k (x ∷ xs)))
unfolding bytes_of_chars
bytes_of_chars-take zero x xs h le = elim le [ ]
bytes_of_chars-take (suc k) x xs h le =
    omega (arith, h.0.1, length-append x.1 (bytes_of_chars (take k xs)))

module _ {T : Tok} (tok : IsTok T) where
  pub Tokens-append :
      (p q u v : List ℕ) → Tokens tok p u → Tokens tok q v → Tokens tok (p ++ q) (u ++ v)
  Tokens-append p q u v a b = record {
    same = texts-append T u v ∙ ap (λ t. t ++ texts T v) a.same ∙ ap (λ t. p ++ t) b.same;
    few = omega (arith, a.few, b.few, length-append u v, length-append p q);
  }

  pub nil-Tokens : Tokens tok [] []
  unfolding texts
  nil-Tokens = record { same = refl; few = omega arith }

  pieces_from-Tokens :
      (n : ℕ) (xs : List (ℕ × List ℕ))
      → All IsChar xs
      → length xs ≤ n
      → Tokens tok (bytes_of_chars xs) (pieces_from T n xs)
  unfolding pieces_from bytes_of_chars
  pieces_from-Tokens zero [] h le = nil-Tokens
  pieces_from-Tokens zero (x ∷ xs) h le = elim le [ ]
  pieces_from-Tokens (suc n) [] h le = nil-Tokens
  pieces_from-Tokens (suc n) (x ∷ xs) h le =
      let k = piece_length T (map (λ (y : ℕ × List ℕ). y.0) (x ∷ xs)) in
      let one : 1 ≤ k = (piece_length-bounds T x.0 (map (λ (y : ℕ × List ℕ). y.0) xs)).0 in
      let front = take k (x ∷ xs) in
      let others = drop k (x ∷ xs) in
      subst (λ p. Tokens tok p (bpe_piece T (bytes_of_chars front) ++ pieces_from T n others))
        (sym (bytes_of_chars-append front others) ∙ ap bytes_of_chars (take-drop k (x ∷ xs)))
        (Tokens-append _ _ _ _
          (bpe_piece-Tokens tok (bytes_of_chars front)
            (bytes_of_chars-IsByte front (All-take IsChar k (x ∷ xs) h))
            (bytes_of_chars-take k x xs h one))
          (pieces_from-Tokens n others (All-drop IsChar k (x ∷ xs) h)
            (omega (arith, one, length-drop k (x ∷ xs)))))

  -- The tokens of a chunk give its bytes.
  pub pretok_chunk-Tokens : (p : List ℕ) → All IsByte p → Tokens tok p (pretok_chunk T p)
  unfolding pretok_chunk
  pretok_chunk-Tokens p h =
      subst (λ q. Tokens tok q (pretok_chunk T p)) (bytes_of_chars-chars (length p) p (omega arith))
        (pieces_from-Tokens _ (chars (length p) p) (chars-IsChar (length p) p h) (omega arith))
