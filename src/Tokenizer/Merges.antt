-- ===== src/Tokenizer/Merges.antt =====
-- The merges of c/tok.h and the bytes of a piece.
use qwanto.Base.{
  ℕ, zero, suc, ◌≤◌, ◌≡◌, true, false, Option, none, some, List, [], ◌∷◌, ◌++◌, length, map, All,
  arith, refl, sym, ap, subst, ◌∙◌, append_assoc, append_nil,
}
use qwanto.Tokenizer.{Tok, spelled, chars}
use qwanto.Tokenizer.Pieces.{best_pair, merge_at, merged, ids_of, bpe_piece}
use qwanto.Tokenizer.Pairs.{Ranked, best_pair-Ranked}
use qwanto.Tokenizer.Codec.{id_text, texts}
use qwanto.Tokenizer.Bytes.{IsByte, spelled-append, symbols-spelled, unspelled-spelled}

pub All-append : (u v : List ℕ) → All IsByte u → All IsByte v → All IsByte (u ++ v)
All-append [] v a b = b
All-append (x ∷ u) v a b = (a.0, All-append u v a.1 b)

-- The tables of a loaded file: every byte is a token, what a merge makes is one, and an id gives its text back.
pub record IsTok (T : Tok) : Type 0 where
  pub bytes : (b : ℕ) → IsByte b → (id : ℕ) × (T.vocab (spelled (b ∷ [])) ≡ some id)
  pub closed :
      (x y : List ℕ) (r : ℕ)
      → T.merges (x ++ (0 ∷ y)) ≡ some r
      → (id : ℕ) × (T.vocab (x ++ y) ≡ some id)
  pub back : (x : List ℕ) (id : ℕ) → T.vocab x ≡ some id → T.id2str id ≡ some (x, false)
  pub literal : All (λ (s : List ℕ × ℕ). T.id2str s.1 ≡ some (s.0, true)) T.sp

unfoldable join : List (List ℕ) → List ℕ
join [] = []
join (g ∷ G) = g ++ join G

join-ones : (p : List ℕ) → join (map (λ b. b ∷ []) p) ≡ p
unfolding join
join-ones [] = refl
join-ones (b ∷ p) = ap (λ t. b ∷ t) (join-ones p)

length-ones : (p : List ℕ) → length (map (λ b. b ∷ []) p) ≡ length p
length-ones [] = refl
length-ones (b ∷ p) = omega (arith, length-ones p)

length-map : (G : List (List ℕ)) → length (map spelled G) ≡ length G
length-map [] = refl
length-map (g ∷ G) = omega (arith, length-map G)

join-merge_at : (i : ℕ) (G : List (List ℕ)) → join (merge_at i G) ≡ join G
unfolding join merge_at
join-merge_at zero [] = refl
join-merge_at zero (g ∷ []) = refl
join-merge_at zero (g ∷ h ∷ G) = append_assoc g h (join G)
join-merge_at (suc i) [] = refl
join-merge_at (suc i) (g ∷ G) = ap (λ t. g ++ t) (join-merge_at i G)

length-merge_at : (i : ℕ) (G : List (List ℕ)) → length (merge_at i G) ≤ length G
unfolding merge_at
length-merge_at zero [] = omega arith
length-merge_at zero (g ∷ []) = omega arith
length-merge_at zero (g ∷ h ∷ G) = omega arith
length-merge_at (suc i) [] = omega arith
length-merge_at (suc i) (g ∷ G) = omega (arith, length-merge_at i G)

map-merge_at : (i : ℕ) (G : List (List ℕ)) → merge_at i (map spelled G) ≡ map spelled (merge_at i G)
unfolding merge_at
map-merge_at zero [] = refl
map-merge_at zero (g ∷ []) = refl
map-merge_at zero (g ∷ h ∷ G) = ap (λ t. t ∷ map spelled G) (sym (spelled-append g h))
map-merge_at (suc i) [] = refl
map-merge_at (suc i) (g ∷ G) = ap (λ t. spelled g ∷ t) (map-merge_at i G)

ids_of-some :
    (vocab : List ℕ → Option ℕ) (x : List ℕ) (xs : List (List ℕ)) (id : ℕ)
    → vocab x ≡ some id
    → ids_of vocab (x ∷ xs) ≡ id ∷ ids_of vocab xs
unfolding ids_of
ids_of-some vocab x xs id e = rw (ids_of, e) refl

length-ids_of :
    (vocab : List ℕ → Option ℕ) (xs : List (List ℕ)) → length (ids_of vocab xs) ≤ length xs
unfolding ids_of
length-ids_of vocab [] = omega arith
length-ids_of vocab (x ∷ xs) = ground (arith, length-ids_of vocab xs)

module _ {T : Tok} (tok : IsTok T) where
  abbrev Known : List ℕ → Type 0
  Known g = All IsByte g × (id : ℕ) × (T.vocab (spelled g) ≡ some id)

  Known-append :
      (g h : List ℕ)
      → Known g
      → Known h
      → (r : ℕ) → T.merges (spelled g ++ (0 ∷ spelled h)) ≡ some r
      → Known (g ++ h)
  Known-append g h a b r e =
      let t = tok.closed (spelled g) (spelled h) r e in
      (All-append g h a.0 b.0, t.0, ap T.vocab (spelled-append g h) ∙ t.1)

  merge_at-Known :
      (i : ℕ) (G : List (List ℕ))
      → All Known G
      → Ranked T.merges i (map spelled G)
      → All Known (merge_at i G)
  unfolding merge_at Ranked
  merge_at-Known zero [] h r = tt
  merge_at-Known zero (g ∷ []) h r = h
  merge_at-Known zero (g ∷ k ∷ G) h r = (Known-append g k h.0 h.1.0 r.0 r.1, h.1.1)
  merge_at-Known (suc i) [] h r = tt
  merge_at-Known (suc i) (g ∷ G) h r = (h.0, merge_at-Known i G h.1 r)

  -- Symbols that are the byte-level texts of known groups of bytes.
  record Grouped (bs : List ℕ) (m : ℕ) (symbols : List (List ℕ)) : Type 0 where
    groups : List (List ℕ)
    is : symbols ≡ map spelled groups
    known : All Known groups
    joined : join groups ≡ bs
    fewer : length groups ≤ m

  merged-Grouped :
      (n : ℕ) (G : List (List ℕ))
      → All Known G
      → Grouped (join G) (length G) (merged T.merges n (map spelled G))
  unfolding merged
  merged-Grouped zero G h = record {
    groups = G;
    is = refl;
    known = h;
    joined = refl;
    fewer = omega arith;
  }
  merged-Grouped (suc n) G h =
      go (λ i k. merged-Grouped n (merge_at i G) k) (best_pair T.merges none 0 (map spelled G)) refl
    where
      go :
          ((i : ℕ)
            → All Known (merge_at i G)
            → Grouped
                (join (merge_at i G))
                (length (merge_at i G))
                (merged T.merges n (map spelled (merge_at i G))))
          → (o : Option (ℕ × ℕ)) → best_pair T.merges none 0 (map spelled G) ≡ o
          → Grouped (join G) (length G) (elim o [
            | none ↦ map spelled G
            | some b ↦ merged T.merges n (merge_at b.1 (map spelled G))
          ])
      go rest none e = record {
        groups = G;
        is = refl;
        known = h;
        joined = refl;
        fewer = omega arith;
      }
      go rest (some b) e =
          let r = rest b.1 (merge_at-Known b.1 G h (best_pair-Ranked T.merges _ b e)) in
          record {
            groups = r.groups;
            is = ap (merged T.merges n) (map-merge_at b.1 G) ∙ r.is;
            known = r.known;
            joined = r.joined ∙ join-merge_at b.1 G;
            fewer = omega (arith, r.fewer, length-merge_at b.1 G);
          }

  id_text-spelled :
      (g : List ℕ) (id : ℕ) → All IsByte g → T.vocab (spelled g) ≡ some id → id_text T id ≡ g
  unfolding id_text
  id_text-spelled g id h e =
      let is = tok.back (spelled g) id e in rw (id_text, is) (unspelled-spelled g h)

  texts-ids_of :
      (G : List (List ℕ)) → All Known G → texts T (ids_of T.vocab (map spelled G)) ≡ join G
  unfolding texts ids_of join
  texts-ids_of [] h = refl
  texts-ids_of (g ∷ G) h =
      let is = h.0.2 in
      ap (texts T) (ids_of-some T.vocab (spelled g) (map spelled G) h.0.1 is)
      ∙ ap (λ u. u ++ texts T (ids_of T.vocab (map spelled G))) (id_text-spelled g h.0.1 h.0.0 is)
      ∙ ap (λ u. g ++ u) (texts-ids_of G h.1)

  symbols-Known : (bs : List ℕ) → All IsByte bs → All Known (map (λ b. b ∷ []) bs)
  symbols-Known [] h = tt
  symbols-Known (b ∷ bs) h =
      (((h.0, tt), (tok.bytes b h.0).0, (tok.bytes b h.0).1), symbols-Known bs h.1)

  -- The tokens of a piece give its bytes, and are at most as many.
  pub record Tokens (p ids : List ℕ) : Type 0 where
    pub same : texts T ids ≡ p
    pub few : length ids ≤ length p

  bytes-Tokens :
      (p : List ℕ) (n : ℕ)
      → All IsByte p
      → Tokens p (ids_of T.vocab (merged T.merges n (map spelled (map (λ b. b ∷ []) p))))
  bytes-Tokens p n h =
      let ones = map (λ b. b ∷ []) p in
      let r = merged-Grouped n ones (symbols-Known p h) in
      record {
        same =
            ap (λ ss. texts T (ids_of T.vocab ss)) r.is
            ∙ texts-ids_of r.groups r.known
            ∙ r.joined
            ∙ join-ones p;
        few = omega (
          arith,
          r.fewer,
          length-ones p,
          subst (λ ss. length (ids_of T.vocab (merged T.merges n (map spelled ones))) ≤ length ss)
              r.is (length-ids_of T.vocab _),
          length-map r.groups,
        );
      }

  pub bpe_piece-Tokens : (p : List ℕ) → All IsByte p → 1 ≤ length p → Tokens p (bpe_piece T p)
  unfolding bpe_piece texts
  bpe_piece-Tokens p h full = go (T.vocab (spelled p)) refl
    where
      go :
          (o : Option ℕ)
          → T.vocab (spelled p) ≡ o
          → Tokens p (elim o [
            | some whole ↦ whole ∷ []
            | none ↦
                let symbols =
                  map (λ (x : ℕ × List ℕ). x.1) (chars (length (spelled p)) (spelled p)) in
                ids_of T.vocab (merged T.merges (length symbols) symbols)
          ])
      go (some id) e = record {
        same = sym (append_nil (id_text T id)) ∙ id_text-spelled p id h e;
        few = omega (arith, full);
      }
      go none e =
          subst (λ ss. Tokens p (ids_of T.vocab (merged T.merges (length ss) ss)))
            (sym (symbols-spelled p h)) (bytes-Tokens p _ h)
