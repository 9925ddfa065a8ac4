-- ===== src/Tokenizer/RoundTrip.antt =====
-- The round trip of `tok_encode` and `tok_decode` of c/tok.h.
use qwanto.Base.{
  some_eq, ℕ, zero, suc, ◌≤◌, ◌<◌, ◌≡◌, Bool, true, false, Option, none, some, List, [], ◌∷◌, ◌++◌,
  length, take, All, ltb, ◌==◌, arith, refl, sym, ap, subst, ◌∙◌, append_nil, length-append,
  Bool-cases, inl, inr,
}
use qwanto.Tokenizer.{Tok}
use qwanto.Tokenizer.Codec.{
  strip, hit, next_special, pretok_chunk, encode_from, tok_encode, id_text, texts, tok_decode,
}
use qwanto.Tokenizer.Bytes.{IsByte}
use qwanto.Tokenizer.Merges.{IsTok, Tokens}
use qwanto.Tokenizer.Split.{Tokens-append, nil-Tokens, pretok_chunk-Tokens}

strip-append : (s p q : List ℕ) → strip s p ≡ some q → p ≡ s ++ q
unfolding strip
strip-append [] p q e = ground arith
strip-append (c ∷ s) [] q e = cc
strip-append (c ∷ s) (b ∷ p) q e = elim (Bool-cases (c == b)) [
  | inl f ↦
      let is : c ≡ b = ground (arith, f) in
      let rest = strip-append s p q (ground (arith, e, f)) in rw (is, rest) refl
  | inr f ↦ ground (arith, e, f)
]

All-parts : (u v : List ℕ) → All IsByte (u ++ v) → All IsByte u × All IsByte v
All-parts [] v h = (tt, h)
All-parts (b ∷ u) v h = let rest = All-parts u v h.1 in ((h.0, rest.0), rest.1)

take-whole : (n : ℕ) (xs : List ℕ) → length xs ≤ n → take n xs ≡ xs
take-whole zero [] h = refl
take-whole zero (x ∷ xs) h = elim h [ ]
take-whole (suc n) [] h = refl
take-whole (suc n) (x ∷ xs) h = ap (λ t. x ∷ t) (take-whole n xs (omega (arith, h)))

module _ {T : Tok} (tok : IsTok T) where
  -- A text that starts with a special token.
  record IsHit (p : List ℕ) (x : ℕ × List ℕ) : Type 0 where
    string : List ℕ
    starts : p ≡ string ++ x.1
    full : 1 ≤ length string
    means : id_text T x.0 ≡ string

  id_text-special : (s : List ℕ × ℕ) → T.id2str s.1 ≡ some (s.0, true) → id_text T s.1 ≡ s.0
  unfolding id_text
  id_text-special s e = rw (id_text, e) refl

  hit-IsHit :
      (xs : List (List ℕ × ℕ)) (p : List ℕ) (x : ℕ × List ℕ)
      → All (λ (s : List ℕ × ℕ). T.id2str s.1 ≡ some (s.0, true)) xs
      → hit xs p ≡ some x
      → IsHit p x
  unfolding hit
  hit-IsHit [] p x h e = cc
  hit-IsHit (s ∷ xs) p x h e =
      go (λ f. hit-IsHit xs p x h.1 f) (ltb 0 (length s.0)) refl (strip s.0 p) refl e
    where
      go :
          (hit xs p ≡ some x → IsHit p x)
          → (b : Bool) → ltb 0 (length s.0) ≡ b
          → (o : Option (List ℕ)) → strip s.0 p ≡ o
          → (elim b [
            | false ↦ hit xs p
            | true ↦ elim o [ none ↦ hit xs p | some q ↦ some (s.1, q) ]
          ])
            ≡ some x
          → IsHit p x
      go rest false eb o eo f = rest f
      go rest true eb none eo f = rest f
      go rest true eb (some q) eo f =
          let is = id_text-special s h.0 in
          subst (IsHit p) (some_eq f) (record {
            string = s.0;
            starts = strip-append s.0 p q eo;
            full = ground (arith, eb);
            means = is;
          })

  -- What next_special says of a text.
  Splits : List ℕ → List ℕ × Option (ℕ × List ℕ) → Type 0
  Splits p (chunk, none) = p ≡ chunk
  Splits p (chunk, some x) = (q : List ℕ) × (p ≡ chunk ++ q) × IsHit q x

  Splits-first :
      (b : ℕ) (p : List ℕ) (c : List ℕ × Option (ℕ × List ℕ))
      → Splits p c
      → Splits (b ∷ p) (b ∷ c.0, c.1)
  unfolding Splits
  Splits-first b p (chunk, none) h = ap (λ t. b ∷ t) h
  Splits-first b p (chunk, some x) h = (h.0, ap (λ t. b ∷ t) h.1, h.2)

  next_special-Splits : (p : List ℕ) → Splits p (next_special T p)
  unfolding next_special Splits
  next_special-Splits [] = refl
  next_special-Splits (b ∷ p) = go (next_special-Splits p) (hit T.sp (b ∷ p)) refl
    where
      go :
          Splits p (next_special T p)
          → (o : Option (ℕ × List ℕ)) → hit T.sp (b ∷ p) ≡ o
          → Splits (b ∷ p) (elim o [
            | some x ↦ ([], some x)
            | none ↦ (b ∷ (next_special T p).0, (next_special T p).1)
          ])
      go rest none e = Splits-first b p (next_special T p) rest
      go rest (some x) e = (b ∷ p, refl, hit-IsHit T.sp (b ∷ p) x tok.literal e)

  special-Tokens : (q : List ℕ) (x : ℕ × List ℕ) (h : IsHit q x) → Tokens tok h.string (x.0 ∷ [])
  unfolding texts
  special-Tokens q x h = record { same = sym (append_nil (id_text T x.0)) ∙ h.means; few = h.full }

  parts-Tokens :
      (n : ℕ)
      → ((q : List ℕ) → All IsByte q → length q < n → Tokens tok q (encode_from T n q))
      → (p : List ℕ) (c : List ℕ × Option (ℕ × List ℕ)) → Splits p c
      → All IsByte p
      → length p < suc n
      → Tokens tok p
          (pretok_chunk T c.0 ++ (elim c.1 [ none ↦ [] | some x ↦ x.0 ∷ encode_from T n x.1 ]))
  unfolding Splits
  parts-Tokens n rest p (chunk, none) e h lt =
      let bytes = subst (All IsByte) e h in
      subst (λ q. Tokens tok q (pretok_chunk T chunk ++ [])) (sym (append_nil chunk) ∙ sym e)
        (Tokens-append tok chunk [] _ [] (pretok_chunk-Tokens tok chunk bytes) (nil-Tokens tok))
  parts-Tokens n rest p (chunk, some x) (q, e, f) h lt =
      let whole : p ≡ chunk ++ (f.string ++ x.1) = e ∙ ap (λ t. chunk ++ t) f.starts in
      let bytes = All-parts chunk _ (subst (All IsByte) whole h) in
      let behind_it = All-parts f.string x.1 bytes.1 in
      let shorter : length x.1 < n = omega (
        arith,
        lt,
        ap length whole,
        length-append chunk (f.string ++ x.1),
        length-append f.string x.1,
        f.full,
      ) in
      subst (λ t. Tokens tok t (pretok_chunk T chunk ++ (x.0 ∷ encode_from T n x.1))) (sym whole)
        (Tokens-append tok chunk _ _ _ (pretok_chunk-Tokens tok chunk bytes.0) (
          Tokens-append tok f.string x.1 (x.0 ∷ []) _ (special-Tokens q x f)
            (rest x.1 behind_it.1 shorter)))

  encode_from-Tokens :
      (n : ℕ) (p : List ℕ) → All IsByte p → length p < n → Tokens tok p (encode_from T n p)
  unfolding encode_from
  encode_from-Tokens zero p h lt = elim lt [ ]
  encode_from-Tokens (suc n) p h lt =
      parts-Tokens n (λ q b l. encode_from-Tokens n q b l) p (next_special T p)
        (next_special-Splits p) h lt

  -- Where the tables have every byte as a token, and what each merge makes, and give the text of an id back,
  -- tok_decode gives the bytes of any text, UTF-8 or not, back from the ids that tok_encode makes of it,
  -- if both buffers have room for as many as the text has bytes.
  pub tok_decode-tok_encode :
      (text : List ℕ) (max_ids max_bytes : ℕ)
      → All IsByte text
      → length text ≤ max_ids
      → length text ≤ max_bytes
      → tok_decode T (tok_encode T text max_ids) max_bytes ≡ text
  unfolding tok_decode tok_encode
  tok_decode-tok_encode text m r h fits room =
      let t = encode_from-Tokens (suc (length text)) text h (omega arith) in
      ap (λ ids. take r (texts T ids)) (take-whole m _ (omega (arith, fits, t.few)))
      ∙ ap (take r) t.same
      ∙ take-whole r text room
