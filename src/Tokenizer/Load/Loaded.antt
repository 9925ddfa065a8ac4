-- ===== src/Tokenizer/Load/Loaded.antt =====
-- The tables that c/tok.h builds from a document.
use qwanto.Base.{
  true, arith, ◌<◌, ◌-◌, ◌^◌, ℕ, ◌≡◌, ◌≢◌, inl, inr, Bool, some, List, [], ◌∷◌, ◌++◌, length, ltb,
  All, refl, sym, ap, subst, ◌∙◌, Bool-cases, slot,
}
use mathlib.Core.List.{Memᴰ}
use mathlib.Core.List.Memᴰ.{head, tail}
use qwanto.Tokenizer.{Tok, spelled}
use qwanto.Tokenizer.Bytes.{IsByte}
use qwanto.Tokenizer.Merges.{IsTok}
use qwanto.Tokenizer.HashMap.{HMap, hm_get, map_of}
use qwanto.Tokenizer.HashMap.Filled.{last_value, map_of-last_value}
use qwanto.Tokenizer.Load.{
  Source, ranked, max_id, in_int, strings, insert_sp, sort_sp, looked_up, build_tables,
}
use qwanto.Tokenizer.Load.Tables.{
  Apart, All-Mem, last_value-Memᴰ, last_value-some, ranked-Memᴰ, strings-vocab, strings-added,
}

-- No NUL, as in the bytes of a C string.
abbrev pub NoNul : List ℕ → Type 0
NoNul s = All (λ c. c ≢ 0) s

-- A document whose vocabulary has each byte, and what each merge makes, whose ids are all different and below
-- 2^31 - 1, and which has fewer than 2^29 entries and merges.
pub record IsSource (S : Source) : Type 0 where
  pub bytes : (b : ℕ) → IsByte b → (id : ℕ) × Memᴰ (spelled (b ∷ []), id) S.vocab
  pub made : All (λ (x : List ℕ × List ℕ). (id : ℕ) × Memᴰ (x.0 ++ x.1, id) S.vocab) S.merges
  pub plain : All (λ (x : List ℕ × List ℕ). NoNul x.0 × NoNul x.1) S.merges
  pub apart : Apart S
  pub ids : max_id S.added (max_id S.vocab 0) < 2 ^ 31 - 1
  pub entries : length S.vocab < 2 ^ 29
  pub pairs : length S.merges < 2 ^ 29

NoNul-nul : (x y : List ℕ) → NoNul (x ++ (0 ∷ y)) → ⊥
NoNul-nul [] y h = h.0 refl
NoNul-nul (c ∷ x) y h = NoNul-nul x y h.1

list_tail : List ℕ → List ℕ
list_tail [] = []
list_tail (c ∷ cs) = cs

list_head : List ℕ → ℕ
list_head [] = 0
list_head (c ∷ cs) = c

-- A key of the merges has one pair.
one_pair : (x y l r : List ℕ) → NoNul l → NoNul r → x ++ (0 ∷ y) ≡ l ++ (0 ∷ r) → x ++ y ≡ l ++ r
unfolding list_tail list_head
one_pair [] y [] r hl hr e = ap list_tail e
one_pair [] y (d ∷ l) r hl hr e = absurd (hl.0 (sym (ap list_head e)))
one_pair (c ∷ x) y [] r hl hr e = absurd (NoNul-nul x y (subst NoNul (sym (ap list_tail e)) hr))
one_pair (c ∷ x) y (d ∷ l) r hl hr e =
    let rest = one_pair x y l r hl.1 hr (ap list_tail e) in
    ap (λ z. z ∷ (x ++ y)) (ap list_head e) ∙ ap (λ t. d ∷ t) rest

module _ {A : Type 0} (P : A → Type 0) where
  All-tabulate : (xs : List A) → ((x : A) → Memᴰ x xs → P x) → All P xs
  All-tabulate [] f = tt
  All-tabulate (x ∷ xs) f = (f x (head refl), All-tabulate xs (λ y h. f y (tail h)))

module _ (P : List ℕ × ℕ → Type 0) where
  All-insert_sp :
      (x : List ℕ × ℕ) (xs : List (List ℕ × ℕ)) → P x → All P xs → All P (insert_sp x xs)
  unfolding insert_sp
  All-insert_sp x [] p h = (p, tt)
  All-insert_sp x (y ∷ ys) p h = elim (Bool-cases (ltb (length x.0) (length y.0))) [
    | inl e ↦ rw (e) (h.0, All-insert_sp x ys p h.1)
    | inr e ↦ rw (e) (p, h)
  ]

  All-sort_sp : (xs : List (List ℕ × ℕ)) → All P xs → All P (sort_sp xs)
  unfolding sort_sp
  All-sort_sp [] h = tt
  All-sort_sp (x ∷ xs) h = All-insert_sp x (sort_sp xs) h.0 (All-sort_sp xs h.1)

module _ (is_l is_n is_s : ℕ → Bool) (S : Source) where
  abbrev tables : HMap → HMap → Tok
  tables v m = record {
    vocab = λ k. looked_up (hm_get v k);
    merges = λ k. looked_up (hm_get m k);
    id2str = λ id. slot (strings S) id;
    sp = sort_sp S.added;
    is_l = is_l;
    is_n = is_n;
    is_s = is_s;
  }

  IsSource-in_int : IsSource S → in_int S ≡ true
  unfolding in_int
  IsSource-in_int h = ground (arith, h.ids, h.entries, h.pairs)

  build_tables-some :
      (v m : HMap)
      → in_int S ≡ true
      → map_of S.vocab ≡ some v
      → map_of (ranked 0 S.merges) ≡ some m
      → build_tables is_l is_n is_s S ≡ some (tables v m)
  unfolding build_tables
  build_tables-some v m ei ev em = rw (build_tables, ei, ev) (rw (em) refl)

  -- The tables of a document whose vocabulary has each byte and what each merge makes, and whose ids are all
  -- different and below 2^31 - 1, with fewer than 2^29 entries and merges, are built, all loops ending, and they have every byte as a token, and what each merge makes, and give the text of an id back.
  pub build_tables-IsTok :
      IsSource S → (T : Tok) × (build_tables is_l is_n is_s S ≡ some T) × IsTok T
  build_tables-IsTok h =
      let (v, ev, gv) = map_of-last_value S.vocab in
      let (m, em, gm) = map_of-last_value (ranked 0 S.merges) in
      let found : (k : List ℕ) → looked_up (hm_get v k) ≡ last_value S.vocab k =
        λ k. ap looked_up (gv k) in
      (
        tables v m,
        build_tables-some v m (IsSource-in_int h) ev em,
        record {
          bytes =
              λ b lt. let id = last_value-some S.vocab _ (h.bytes b lt).1 in (id.0, found _ ∙ id.1);
          closed = λ x y r e.
              let (pair, member, key) =
                ranked-Memᴰ 0 S.merges (x ++ (0 ∷ y)) r
                  (last_value-Memᴰ (ranked 0 S.merges) _ r (ap looked_up (sym (gm _)) ∙ e)) in
              let nul = All-Mem _ S.merges pair h.plain member in
              let text = one_pair x y pair.0 pair.1 nul.0 nul.1 key in
              let id = last_value-some S.vocab _ (All-Mem _ S.merges pair h.made member).1 in
              (id.0, found _ ∙ ap (last_value S.vocab) text ∙ id.1);
          back = λ x id e.
              strings-vocab S h.apart (x, id) (last_value-Memᴰ S.vocab x id (sym (found x) ∙ e));
          literal =
              All-sort_sp _ S.added (All-tabulate _ S.added (λ x i. strings-added S h.apart x i));
        },
      )
