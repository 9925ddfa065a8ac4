-- ===== src/PagedKv/Cache/Counts.antt =====
-- How often a physical block occurs on the free stack and in the tables of a cache.
use qwanto.Base.{
  ℕ, zero, suc, ◌+◌, ◌≤◌, ◌<◌, ◌≡◌, refl, some, List, [], ◌∷◌, ◌++◌, arith, length, get_elem?, set,
  ltb, leb, ◌&&◌, ◌==◌, if◌then◌else◌, All,
}
use qwanto.PagedKv.Pool.{BlockTable, fill}

-- How often a block occurs.
abbrev pub count : ℕ → List ℕ → ℕ
count a [] = 0
count a (b ∷ bs) = (if a == b then 1 else 0) + count a bs

pub count-append :
    (block : ℕ) (front back : List ℕ)
    → count block (front ++ back) ≡ count block front + count block back
count-append block [] back = ground arith
count-append block (other ∷ front) back = ground (arith, count-append block front back)

-- How often it occurs in the tables, and how many blocks they hold.
abbrev pub count_tables : ℕ → List BlockTable → ℕ
count_tables a [] = 0
count_tables a (t ∷ ts) = count a t.block_ids + count_tables a ts

abbrev pub held : List BlockTable → ℕ
held [] = 0
held (t ∷ ts) = length t.block_ids + held ts

abbrev pub indicator : ℕ → ℕ → ℕ
indicator total a = if ltb a total then 1 else 0

pub count_tables-set :
    (a : ℕ) (ts : List BlockTable) (i : ℕ) (u : BlockTable) {t : BlockTable}
    → get_elem? ts i ≡ some t
    → count_tables a (set ts i u) + count a t.block_ids ≡ count_tables a ts + count a u.block_ids
count_tables-set a [] i u e = cc
count_tables-set a (t ∷ ts) zero u e = ground arith
count_tables-set a (t ∷ ts) (suc i) u e = omega (arith, count_tables-set a ts i u e)

pub held-set :
    (ts : List BlockTable) (i : ℕ) (u : BlockTable) {t : BlockTable}
    → get_elem? ts i ≡ some t
    → held (set ts i u) + length t.block_ids ≡ held ts + length u.block_ids
held-set [] i u e = cc
held-set (t ∷ ts) zero u e = ground arith
held-set (t ∷ ts) (suc i) u e = omega (arith, held-set ts i u e)

-- Blocks that occur at most once below a bound, and never from it on, are below it.
pub count-All :
    (total : ℕ) (bs : List ℕ) → ((a : ℕ) → count a bs ≤ indicator total a) → All (λ b. b < total) bs
count-All total [] h = tt
count-All total (b ∷ bs) h = (ground (arith, h b), count-All total bs (λ a. omega (arith, h a)))

pub count_tables-le :
    (a : ℕ) (ts : List BlockTable) (i : ℕ) {t : BlockTable}
    → get_elem? ts i ≡ some t
    → count a t.block_ids ≤ count_tables a ts
count_tables-le a [] i e = cc
count_tables-le a (t ∷ ts) zero e = ground arith
count_tables-le a (t ∷ ts) (suc i) e = omega (arith, count_tables-le a ts i e)

pub held-le :
    (ts : List BlockTable) (i : ℕ) {t : BlockTable}
    → get_elem? ts i ≡ some t
    → length t.block_ids ≤ held ts
held-le [] i e = cc
held-le (t ∷ ts) zero e = ground arith
held-le (t ∷ ts) (suc i) e = omega (arith, held-le ts i e)

pub count-fill : (a n i : ℕ) → count a (fill n i) ≡ (if leb i a && ltb a (i + n) then 1 else 0)
unfolding fill
count-fill a zero i = ground arith
count-fill a (suc n) i = ground (arith, count-fill a n (i + 1))

pub length-fill : (n i : ℕ) → length (fill n i) ≡ n
unfolding fill
length-fill zero i = refl
length-fill (suc n) i = omega (arith, length-fill n (i + 1))
