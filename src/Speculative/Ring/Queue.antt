-- ===== src/Speculative/Ring/Queue.antt =====
-- The token ring as a bounded queue.
use qwanto.Base.{
  ℕ, zero, suc, ◌+◌, ◌-◌, ◌%◌, ◌≤◌, ◌<◌, ◌≡◌, ◌⊎◌, inl, inr, Bool, true, false, none, some, List,
  [], ◌∷◌, ◌++◌, length, get_or, set, drop, ◌==◌, if◌then◌else◌, arith, refl, sym, ap, ◌∙◌, subst,
  Bool-cases, length-set, get_or-set,
}
use qwanto.Speculative.Ring.{
  Ring, ring_push, ring_pop, ring_clear, RingOp, pushes, pops, clears, run_ring, run_queue,
}

-- `n` tokens from the position `t` on.
unfoldable pub items : List ℕ → ℕ → ℕ → List ℕ
items b t zero = []
items b t (suc n) = get_or b t 0 ∷ items b ((t + 1) % 32) n

unfoldable pub contents : Ring → List ℕ
contents r = items r.ring_buffer r.ring_tail r.ring_count

-- The head stands behind the `ring_count` tokens from the tail on.
pub record IsRing (r : Ring) : Type 0 where
  pub size : length r.ring_buffer ≡ 32
  pub below : r.ring_tail < 32
  pub few : r.ring_count ≤ 32
  pub behind : r.ring_head ≡ (r.ring_tail + r.ring_count) % 32

items-length : (b : List ℕ) (t n : ℕ) → length (items b t n) ≡ n
unfolding items
items-length b t zero = refl
items-length b t (suc n) = ap suc (items-length b ((t + 1) % 32) n)

items-snoc :
    (b : List ℕ) (t n h : ℕ)
    → t < 32
    → h ≡ (t + n) % 32
    → items b t (suc n) ≡ items b t n ++ (get_or b h 0 ∷ [])
unfolding items
items-snoc b t zero h below e = let same : t ≡ h = omega arith in ap (λ z. get_or b z 0 ∷ []) same
items-snoc b t (suc n) h below e =
    ap (λ z. get_or b t 0 ∷ z) (items-snoc b ((t + 1) % 32) n h (omega arith) (omega arith))

-- A write behind the tokens, with `d` places between, changes none of them.
items-set :
    (b : List ℕ) (t n d h v : ℕ)
    → length b ≡ 32
    → t < 32
    → n + d < 32
    → h ≡ (t + n + d) % 32
    → items (set b h v) t n ≡ items b t n
unfolding items
items-set b t zero d h v size below few e = refl
items-set b t (suc n) d h v size below few e =
    let apart : (t == h) ≡ false = ground arith in
    let kept : get_or (set b h v) t 0 ≡ get_or b t 0 =
      get_or-set b h t v 0 (omega arith) ∙ ap (λ x. if x then v else get_or b t 0) apart in
    ap (λ z. z ∷ items (set b h v) ((t + 1) % 32) n) kept
    ∙ ap (λ z. get_or b t 0 ∷ z)
        (items-set b ((t + 1) % 32) n d h v size (omega arith) (omega arith) (omega arith))

-- A token written behind the others.
items-written :
    (b : List ℕ) (t n h v : ℕ)
    → length b ≡ 32
    → t < 32
    → n < 32
    → h ≡ (t + n) % 32
    → items (set b h v) t (suc n) ≡ items b t n ++ (v ∷ [])
items-written b t n h v size below few e =
    let same : (h == h) ≡ true = ground arith in
    let written : get_or (set b h v) h 0 ≡ v =
      get_or-set b h h v 0 (omega arith) ∙ ap (λ x. if x then v else get_or b h 0) same in
    items-snoc (set b h v) t n h below e
    ∙ ap (λ z. items (set b h v) t n ++ (z ∷ [])) written
    ∙ ap (λ z. z ++ (v ∷ [])) (items-set b t n 0 h v size below (omega arith) (omega arith))

ring_push-IsRing : (r : Ring) (token : ℕ) → IsRing r → IsRing (ring_push r token)
unfolding ring_push
ring_push-IsRing r token i = record {
  size = length-set r.ring_buffer r.ring_head token ∙ i.size;
  below = ground (arith, i.below);
  few = ground (arith, i.few);
  behind = elim (Bool-cases (r.ring_count == 32)) [
    | inl full ↦ ground (arith, i.behind, i.below, full)
    | inr room ↦ ground (arith, i.behind, i.below, room)
  ];
}

items-pushed :
    (b : List ℕ) (t n h v : ℕ) (full : Bool)
    → length b ≡ 32
    → t < 32
    → n ≤ 32
    → h ≡ (t + n) % 32
    → (n == 32) ≡ full
    → items (set b h v) (if full then (t + 1) % 32 else t) ((if full then n - 1 else n) + 1)
      ≡ (if full then drop 1 (items b t n) else items b t n) ++ (v ∷ [])
unfolding items
items-pushed b t n h v true size below few e f =
    let all : n ≡ 31 + 1 = ground arith in
    let t' = (t + 1) % 32 in
    subst (λ m. items (set b h v) t' (m - 1 + 1) ≡ drop 1 (items b t m) ++ (v ∷ [])) (sym all)
      (items-written b t' 31 h v size (omega arith) (omega arith) (omega arith))
items-pushed b t n h v false size below few e f =
    let more : suc n ≡ n + 1 = omega arith in
    subst (λ m. items (set b h v) t m ≡ items b t n ++ (v ∷ [])) more
      (items-written b t n h v size below (ground arith) e)

contents-ring_push :
    (r : Ring) (token : ℕ)
    → IsRing r
    → contents (ring_push r token)
      ≡ (if length (contents r) == 32 then drop 1 (contents r) else contents r) ++ (token ∷ [])
unfolding contents ring_push
contents-ring_push r token i =
    subst
      (λ n.
        contents (ring_push r token)
        ≡ (if n == 32 then drop 1 (contents r) else contents r) ++ (token ∷ []))
      (sym (items-length r.ring_buffer r.ring_tail r.ring_count))
      (items-pushed r.ring_buffer r.ring_tail r.ring_count r.ring_head token (r.ring_count == 32)
        i.size i.below i.few i.behind refl)

-- A pop takes the first token, if there is one.
ring_pop-contents :
    (r : Ring)
    → IsRing r
    → ((ring_pop r ≡ none) × (contents r ≡ []))
      ⊎ ((token : ℕ) × (r' : Ring) × (ring_pop r ≡ some (token, r'))
          × (contents r ≡ token ∷ contents r')
          × IsRing r')
unfolding ring_pop contents items
ring_pop-contents r i = go r.ring_count r.ring_buffer r.ring_head r.ring_tail i
  where
    go :
        (n : ℕ) (b : List ℕ) (h t : ℕ)
        → IsRing (record { ring_buffer = b; ring_head = h; ring_tail = t; ring_count = n })
        → let r : Ring = record { ring_buffer = b; ring_head = h; ring_tail = t; ring_count = n } in
          ((ring_pop r ≡ none) × (contents r ≡ []))
          ⊎ ((token : ℕ) × (r' : Ring) × (ring_pop r ≡ some (token, r'))
              × (contents r ≡ token ∷ contents r')
              × IsRing r')
    go zero b h t i = inl (refl, refl)
    go (suc n) b h t i =
        let some_token : (suc n == 0) ≡ false = ground arith in
        let less : suc n - 1 ≡ n = omega arith in
        let next : Ring = record {
          ring_buffer = b;
          ring_head = h;
          ring_tail = (t + 1) % 32;
          ring_count = n;
        } in
        inr (
          get_or b t 0,
          next,
          rw (some_token, less) refl,
          refl,
          record {
            size = i.size;
            below = omega arith;
            few = omega (arith, i.few);
            behind = omega (arith, i.behind, i.below);
          },
        )

-- From a ring in order, whatever the calls, the pops give what they give on a queue of at most 32 tokens, of
-- which a push on a full one drops the first.
pub run_ring-run_queue :
    (ops : List RingOp) (r : Ring) → IsRing r → run_ring ops r ≡ run_queue ops (contents r)
unfolding run_ring run_queue ring_clear contents items
run_ring-run_queue [] r i = refl
run_ring-run_queue (pushes token ∷ ops) r i =
    run_ring-run_queue ops (ring_push r token) (ring_push-IsRing r token i)
    ∙ ap (run_queue ops) (contents-ring_push r token i)
run_ring-run_queue (clears ∷ ops) r i =
    run_ring-run_queue ops (ring_clear r)
      (record { size = i.size; below = ground arith; few = ground arith; behind = ground arith })
run_ring-run_queue (pops ∷ ops) r i = elim (ring_pop-contents r i) [
  | inl x ↦
      let (e, c) = x in
      rw (e, c, run_ring, run_queue)
        (ap (λ z. none ∷ z)
          (subst (λ z. run_ring ops r ≡ run_queue ops z) c (run_ring-run_queue ops r i)))
  | inr x ↦
      let (token, r', e, c, i') = x in
      rw (e, c, run_ring, run_queue) (ap (λ z. some token ∷ z) (run_ring-run_queue ops r' i'))
]
