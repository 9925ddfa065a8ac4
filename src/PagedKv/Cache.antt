-- ===== src/PagedKv/Cache.antt =====
-- A pool with the tables of all requests, and the calls that change them.
pub mod Counts
pub mod Owned
use qwanto.Base.{
  ℕ, zero, suc, ◌+◌, ◌<◌, ◌≡◌, Bool, true, false, Option, none, some, List, [], ◌∷◌, ◌++◌,
  get_elem?, set,
}
use qwanto.PagedKv.Pool.{Pool, BlockTable, Result, table_init, append_token, table_free}

pub record Cache : Type 0 where
  pub pool : Pool
  pub tables : List BlockTable

-- A request starts, appends a token, or is freed; the Booleans are the outcomes of the allocations.
pub data Call : Type 0 where
  starts : Bool → ℕ → ℕ → Call
  appends : Bool → ℕ → Call
  frees : ℕ → Call

unfoldable pub start : Cache → Bool → ℕ → ℕ → Cache
start c allocates req_id capacity = elim (table_init allocates req_id capacity) [
  | none ↦ c
  | some bt ↦ record c { tables = bt ∷ c.tables }
]

unfoldable pub append : Cache → Bool → ℕ → BlockTable → Cache
append c reallocates i bt =
    let r = append_token reallocates c.pool bt in
    record { pool = r.pool; tables = set c.tables i r.table }

unfoldable pub free : Cache → ℕ → BlockTable → Cache
free c i bt =
    let (pool, table) = table_free c.pool bt in
    record { pool = pool; tables = set c.tables i table }

-- A call on a request that is not there is none.
unfoldable pub step : Cache → Call → Cache
step c (starts allocates req_id capacity) = start c allocates req_id capacity
step c (appends reallocates i) = elim (get_elem? c.tables i) [
  | none ↦ c
  | some bt ↦ append c reallocates i bt
]
step c (frees i) = elim (get_elem? c.tables i) [ none ↦ c | some bt ↦ free c i bt ]

-- An append is on a table that has not been freed. On one that has, the capacity of 0 stays 0 when it is
-- doubled, and `qwn_block_table_append_token` writes past its array.
abbrev pub IsProper : Cache → Call → Type 0
IsProper c (appends reallocates i) =
    (bt : BlockTable) → get_elem? c.tables i ≡ some bt → 0 < bt.block_capacity
IsProper c _ = Unit

unfoldable pub run : Cache → List Call → Cache
run c [] = c
run c (call ∷ calls) = run (step c call) calls

-- Each call is proper where it is made.
abbrev pub AreProper : Cache → List Call → Type 0
AreProper c [] = Unit
AreProper c (call ∷ calls) = IsProper c call × AreProper (step c call) calls
