-- ===== src/Tokenizer/Bytes.antt =====
-- The byte-level texts of c/tok.h.
use qwanto.Base.{
  ℕ, zero, suc, ◌+◌, ◌-◌, ◌/◌, ◌%◌, ◌≤◌, ◌<◌, ◌≡◌, inl, inr, Bool, true, false, ◌&&◌, Option, none,
  some, List, [], ◌∷◌, ◌++◌, length, map, take, drop, All, ltb, ◌==◌, arith, refl, sym, ap, ◌∙◌,
  append_assoc, append_nil, length-append, Bool-cases, ℕ_discrete,
}
use qwanto.Tokenizer.{
  u8_next, u8_put, chars, byte_cps, byte2cp, byte2str, last_byte, cp2byte, spelled, unspelled,
  bytes_of_chars,
}

abbrev pub IsByte : ℕ → Type 0
IsByte b = b < 256

unfoldable all_below : (ℕ → Bool) → ℕ → Bool
all_below test zero = true
all_below test (suc n) = test n && all_below test n

all_below_lem : (test : ℕ → Bool) (n i : ℕ) → all_below test n ≡ true → i < n → test i ≡ true
unfolding all_below
all_below_lem test zero i h lt = elim lt [ ]
all_below_lem test (suc n) i h lt = elim (Bool-cases (test n)) [
  | inr e ↦ cc
  | inl e ↦ elim (ℕ_discrete i n) [
    | yes f ↦ rw (f) e
    | no f ↦ all_below_lem test n i (ground (arith, e, h)) (omega (arith, f, lt))
  ]
]

is_back : Option ℕ → ℕ → Bool
is_back none b = false
is_back (some d) b = d == b

all_back : all_below (λ b. ltb (byte2cp b) 1024 && is_back (cp2byte (byte2cp b)) b) 256 ≡ true
unfolding all_below is_back byte2cp cp2byte last_byte byte_cps
all_back = refl

is_back_lem : (o : Option ℕ) (b : ℕ) → is_back o b ≡ true → o ≡ some b
unfolding is_back
is_back_lem none b h = cc
is_back_lem (some d) b h = ap some (ground (arith, h))

byte-back : (b : ℕ) → IsByte b → (byte2cp b < 1024) × (cp2byte (byte2cp b) ≡ some b)
byte-back b h =
    let e = all_below_lem _ 256 b all_back h in
    elim (Bool-cases (ltb (byte2cp b) 1024)) [
      | inl f ↦ (ground (arith, f), is_back_lem _ b (ground (arith, e, f)))
      | inr f ↦ ground (arith, e, f)
    ]

chars-u8_next :
    (n c cp k : ℕ) (r : List ℕ)
    → u8_next c r ≡ (cp, k)
    → chars (suc n) (c ∷ r) ≡ (cp, take k (c ∷ r)) ∷ chars n (drop k (c ∷ r))
unfolding chars
chars-u8_next n c cp k r h = ap (λ x. (x.0, take x.1 (c ∷ r)) ∷ chars n (drop x.1 (c ∷ r))) h

u8_next-one : (cp : ℕ) (r : List ℕ) → ltb cp 0x80 ≡ true → u8_next cp r ≡ (cp, 1)
unfolding u8_next
u8_next-one cp r e = rw (e) refl

u8_next-two :
    (cp : ℕ) (r : List ℕ)
    → 128 ≤ cp
    → cp < 1024
    → u8_next (0xC0 + cp / 64) ((0x80 + cp % 64) ∷ r) ≡ (cp, 2)
unfolding u8_next
u8_next-two cp r low high = ground arith

-- A code point below 1024 is read back.
chars-u8_put :
    (n cp : ℕ) (r : List ℕ)
    → cp < 1024
    → chars (suc n) (u8_put cp ++ r) ≡ (cp, u8_put cp) ∷ chars n r
unfolding u8_put
chars-u8_put n cp r h = elim (Bool-cases (ltb cp 0x80)) [
  | inl e ↦ rw (e) (chars-u8_next n cp cp 1 r (u8_next-one cp r e))
  | inr e ↦
      let more : ltb cp 0x800 ≡ true = ground arith in
      rw (e, more) (chars-u8_next n _ cp 2 _ (u8_next-two cp r (ground (arith, e)) h))
]

-- The reader of the byte-level text gives the code point of each byte.
chars-spelled :
    (bs : List ℕ) (n : ℕ)
    → All IsByte bs
    → length bs ≤ n
    → chars n (spelled bs) ≡ map (λ b. (byte2cp b, byte2str b)) bs
unfolding spelled byte2str chars
chars-spelled [] zero h le = refl
chars-spelled [] (suc n) h le = refl
chars-spelled (b ∷ bs) zero h le = elim le [ ]
chars-spelled (b ∷ bs) (suc n) h le =
    chars-u8_put n (byte2cp b) (spelled bs) (byte-back b h.0).0
    ∙ ap (λ xs. (byte2cp b, byte2str b) ∷ xs) (chars-spelled bs n h.1 (omega arith))

length-u8_put : (cp : ℕ) → 1 ≤ length (u8_put cp)
unfolding u8_put
length-u8_put cp = ground arith

pub length-spelled : (bs : List ℕ) → length bs ≤ length (spelled bs)
unfolding spelled byte2str
length-spelled [] = omega arith
length-spelled (b ∷ bs) = omega (
  arith,
  length-spelled bs,
  length-u8_put (byte2cp b),
  length-append (u8_put (byte2cp b)) (spelled bs),
)

pub spelled-append : (u v : List ℕ) → spelled (u ++ v) ≡ spelled u ++ spelled v
unfolding spelled
spelled-append [] v = refl
spelled-append (b ∷ u) v =
    ap (λ t. byte2str b ++ t) (spelled-append u v)
    ∙ sym (append_assoc (byte2str b) (spelled u) (spelled v))

unspelled-back :
    (cp b : ℕ) (s : List ℕ) (xs : List (ℕ × List ℕ))
    → cp2byte cp ≡ some b
    → unspelled ((cp, s) ∷ xs) ≡ b ∷ unspelled xs
unfolding unspelled
unspelled-back cp b s xs h = rw (unspelled, h) refl

unspelled-map :
    (bs : List ℕ) → All IsByte bs → unspelled (map (λ b. (byte2cp b, byte2str b)) bs) ≡ bs
unfolding unspelled
unspelled-map [] h = refl
unspelled-map (b ∷ bs) h =
    unspelled-back (byte2cp b) b (byte2str b) _ (byte-back b h.0).1
    ∙ ap (λ u. b ∷ u) (unspelled-map bs h.1)

-- A byte-level text is read back.
pub unspelled-spelled :
    (bs : List ℕ) → All IsByte bs → unspelled (chars (length (spelled bs)) (spelled bs)) ≡ bs
unspelled-spelled bs h =
    ap unspelled (chars-spelled bs (length (spelled bs)) h (length-spelled bs)) ∙ unspelled-map bs h

spelled-one : (b : ℕ) → byte2str b ≡ spelled (b ∷ [])
unfolding spelled
spelled-one b = append_nil (byte2str b)

-- The symbols that the loop of merges starts with.
pub symbols-spelled :
    (bs : List ℕ)
    → All IsByte bs
    → map (λ (x : ℕ × List ℕ). x.1) (chars (length (spelled bs)) (spelled bs))
      ≡ map spelled (map (λ b. b ∷ []) bs)
symbols-spelled bs h =
    ap (map (λ (x : ℕ × List ℕ). x.1))
      (chars-spelled bs (length (spelled bs)) h (length-spelled bs))
    ∙ both bs
  where
    both :
        (bs : List ℕ)
        → map (λ (x : ℕ × List ℕ). x.1) (map (λ b. (byte2cp b, byte2str b)) bs)
          ≡ map spelled (map (λ b. b ∷ []) bs)
    both [] = refl
    both (b ∷ bs) =
        ap (λ t. t ∷ map (λ (x : ℕ × List ℕ). x.1) (map (λ b. (byte2cp b, byte2str b)) bs))
          (spelled-one b)
        ∙ ap (λ ts. spelled (b ∷ []) ∷ ts) (both bs)

pub u8_next-step : (c : ℕ) (r : List ℕ) → 1 ≤ (u8_next c r).1
unfolding u8_next
u8_next-step c r = ground arith

module _ {A : Type 0} where
  pub take-drop : (k : ℕ) (xs : List A) → take k xs ++ drop k xs ≡ xs
  take-drop zero xs = refl
  take-drop (suc k) [] = refl
  take-drop (suc k) (x ∷ xs) = ap (λ t. x ∷ t) (take-drop k xs)

  pub length-drop : (k : ℕ) (xs : List A) → length (drop k xs) ≡ length xs - k
  length-drop zero xs = omega arith
  length-drop (suc k) [] = omega arith
  length-drop (suc k) (x ∷ xs) = omega (arith, length-drop k xs)

-- The characters of a text are its bytes, whether it is UTF-8 or not.
pub bytes_of_chars-chars : (n : ℕ) (p : List ℕ) → length p ≤ n → bytes_of_chars (chars n p) ≡ p
unfolding bytes_of_chars chars
bytes_of_chars-chars zero [] h = refl
bytes_of_chars-chars zero (c ∷ r) h = elim h [ ]
bytes_of_chars-chars (suc n) [] h = refl
bytes_of_chars-chars (suc n) (c ∷ r) h =
    let k = (u8_next c r).1 in
    ap (λ t. take k (c ∷ r) ++ t)
      (bytes_of_chars-chars n (drop k (c ∷ r))
        (omega (arith, h, u8_next-step c r, length-drop k (c ∷ r))))
    ∙ take-drop k (c ∷ r)
