-- ===== src/Speculative/Prefix.antt =====
-- The cache of measured draft prefixes of c/qwn_speculative.c, without its measured acceptance: no lookup
-- and no insert reads it.
pub mod Newest
pub mod Lookup
use qwanto.Base.{
  ℕ, zero, suc, ◌+◌, ◌-◌, ◌^◌, Bool, true, false, not, ◌&&◌, ◌||◌, Option, none, some, List, [],
  ◌∷◌, ◌++◌, length, take, set, get_or, replicate, ltb, ◌==◌, if◌then◌else◌, u64, u64_max,
}

-- `SpeculationCacheEntry`: the `token_count` tokens with their probabilities, over a type `F` of floats.
pub record Prefix (F : Type 0) : Type 0 where
  pub hash : ℕ
  pub tokens : List (ℕ × F)
  pub lru_timestamp : ℕ

-- `SpeculationCache`, of which `entries` holds the `count` entries in use.
pub record PrefixCache (F : Type 0) : Type 0 where
  pub entries : List (Prefix F)
  pub capacity : ℕ
  pub current_lru_clock : ℕ
  pub total_lookups : ℕ
  pub total_hits : ℕ

abbrev pub max_draft : ℕ
max_draft = 16

module _ {F : Type 0} where
  -- `qwn_speculative_engine_init`. A capacity that is not above 0 is given as 0.
  unfoldable pub cache_init : ℕ → PrefixCache F
  cache_init capacity = record {
    entries = [];
    capacity = if capacity == 0 then 256 else capacity;
    current_lru_clock = 0;
    total_lookups = 0;
    total_hits = 0;
  }

  -- The first entry that passes a test.
  unfoldable pub first_index : (Prefix F → Bool) → List (Prefix F) → Option ℕ
  first_index test [] = none
  first_index test (e ∷ es) = elim (test e) [
    | true ↦ some 0
    | false ↦ elim (first_index test es) [ none ↦ none | some i ↦ some (suc i) ]
  ]

  abbrev pub no_prefix : Prefix F
  no_prefix = record { hash = 0; tokens = []; lru_timestamp = 0 }

  abbrev pub answers : ℕ → Prefix F → Bool
  answers hash e = (e.hash == hash) && ltb 0 (length e.tokens)

  -- The entry at `i`, used now.
  abbrev pub now_used : PrefixCache F → ℕ → Prefix F
  now_used c i = record (get_or c.entries i no_prefix) {
    lru_timestamp = u64 (c.current_lru_clock + 1);
  }

  -- The cache after the entry at `i` has answered.
  abbrev pub touched : PrefixCache F → ℕ → PrefixCache F
  touched c i = record c {
    entries = set c.entries i (now_used c i);
    current_lru_clock = u64 (c.current_lru_clock + 1);
    total_lookups = u64 (c.total_lookups + 1);
    total_hits = u64 (c.total_hits + 1);
  }

  -- `qwn_speculative_cache_lookup`: what is copied, and the cache that is left.
  unfoldable pub cache_lookup : PrefixCache F → ℕ → ℕ → List (ℕ × F) × PrefixCache F
  cache_lookup c hash max_len =
      if (hash == 0) || (max_len == 0)
      then ([], c)
      else (elim (first_index (answers hash) c.entries) [
        | none ↦ ([], record c { total_lookups = u64 (c.total_lookups + 1) })
        | some i ↦ (take max_len (get_or c.entries i no_prefix).tokens, touched c i)
      ])

  -- The loop for the least recently used entry, from the entry `i` on.
  unfoldable pub oldest_entry : List (Prefix F) → ℕ → ℕ → ℕ → ℕ
  oldest_entry [] i oldest slot = slot
  oldest_entry (e ∷ es) i oldest slot =
      if ltb e.lru_timestamp oldest
      then oldest_entry es (i + 1) e.lru_timestamp i
      else oldest_entry es (i + 1) oldest slot

  -- The entry that an insert stores.
  abbrev pub newest : PrefixCache F → ℕ → List (ℕ × F) → Prefix F
  newest c hash tokens = record {
    hash = hash;
    tokens = take max_draft tokens;
    lru_timestamp = u64 (c.current_lru_clock + 1);
  }

  -- The entries with `e` in the slot of its hash, else in a free one, else in that of the oldest.
  unfoldable pub placed : PrefixCache F → Prefix F → Option ℕ → List (Prefix F)
  placed c e (some i) = set c.entries i e
  placed c e none =
      if ltb (length c.entries) c.capacity
      then c.entries ++ (e ∷ [])
      else set c.entries (oldest_entry c.entries 0 u64_max 0) e

  -- `qwn_speculative_cache_insert`, with a probability of 0 for each token where none are given.
  unfoldable pub cache_insert : PrefixCache F → ℕ → List (ℕ × F) → PrefixCache F
  cache_insert c hash tokens = if (hash == 0) || (length tokens == 0) then c else record c {
    entries = placed c (newest c hash tokens) (first_index (λ x. x.hash == hash) c.entries);
    current_lru_clock = u64 (c.current_lru_clock + 1);
  }

-- The calls on a cache.
pub data Call (F : Type 0) : Type 0 where
  inserts : ℕ → List (ℕ × F) → Call F
  looks_up : ℕ → ℕ → Call F

unfoldable pub run_calls : {F : Type 0} → List (Call F) → PrefixCache F → PrefixCache F
run_calls [] c = c
run_calls (inserts hash tokens ∷ calls) c = run_calls calls (cache_insert c hash tokens)
run_calls (looks_up hash max_len ∷ calls) c = run_calls calls (cache_lookup c hash max_len).1
