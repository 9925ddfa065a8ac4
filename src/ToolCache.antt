-- ===== src/ToolCache.antt =====
-- The tool-result cache and the session context of c/qwanto_agentic.c.
pub mod Laws
mod Tests
use qwanto.Base.{
  ℕ, zero, suc, ◌+◌, ◌*◌, ◌^◌, Bool, true, false, ◌||◌, ◌&&◌, not, Option, none, some, List, [],
  ◌∷◌, ◌++◌, length, get_or, set, ltb, ◌==◌, if◌then◌else◌, u64, u64_max, fnv1a, fnv_offset,
}

-- `ToolCacheEntry`; texts are their bytes, and NULL is `none`.
pub record ToolEntry : Type 0 where
  pub key_hash : ℕ
  pub tool_name : Option (List ℕ)
  pub args_json : Option (List ℕ)
  pub result_data : List ℕ
  pub timestamp : ℕ
  pub ttl_seconds : ℕ
  pub access_count : ℕ
  pub lru_clock : ℕ

-- `ToolCache`. `entries` holds the occupied ones, so that its length is `count`.
pub record ToolCache : Type 0 where
  pub entries : List ToolEntry
  pub capacity : ℕ
  pub current_lru_clock : ℕ
  pub total_lookups : ℕ
  pub total_hits : ℕ

-- `qwn_tool_hash`
unfoldable tool_hash : List ℕ → Option (List ℕ) → ℕ
tool_hash name none = fnv1a (fnv1a fnv_offset name) (b':' ∷ [])
tool_hash name (some args) = fnv1a (fnv1a (fnv1a fnv_offset name) (b':' ∷ [])) args

-- The cache that `qwn_agentic_engine_init` makes.
unfoldable cache_init : ℕ → ToolCache
cache_init cache_capacity = record {
  entries = [];
  capacity = if ltb 0 cache_capacity then cache_capacity else 512;
  current_lru_clock = 0;
  total_lookups = 0;
  total_hits = 0;
}

-- The first entry with the hash.
unfoldable pub entry_of : ℕ → List ToolEntry → Option ToolEntry
entry_of hash [] = none
entry_of hash (e ∷ es) = let rest = entry_of hash es in if e.key_hash == hash then some e else rest

-- The entries with that one changed.
unfoldable pub change : ℕ → (ToolEntry → ToolEntry) → List ToolEntry → List ToolEntry
change hash f [] = []
change hash f (e ∷ es) =
    let rest = change hash f es in if e.key_hash == hash then f e ∷ es else e ∷ rest

-- `current_time > e->timestamp + e->ttl_seconds`, where both are given.
unfoldable pub expired : ToolEntry → ℕ → Bool
expired e current_time =
    ltb 0 current_time
    && ltb 0 e.ttl_seconds
    && ltb (u64 (e.timestamp + e.ttl_seconds)) current_time

-- `qwn_get_cached_tool`: the result, if there is one, and the cache that it leaves.
unfoldable pub get_cached_tool : ToolCache → ℕ → ℕ → Option (List ℕ) × ToolCache
get_cached_tool cache hash current_time =
    let looked : ToolCache = record cache { total_lookups = u64 (cache.total_lookups + 1) } in
    let clock = u64 (cache.current_lru_clock + 1) in
    if hash == 0 then (none, cache) else elim (entry_of hash cache.entries) [
      | none ↦ (none, looked)
      | some e ↦ if expired e current_time then (none, looked) else (
        some e.result_data,
        record looked {
          entries =
              change hash (λ x. record x { lru_clock = clock; access_count = x.access_count + 1 })
                cache.entries;
          current_lru_clock = clock;
          total_hits = u64 (cache.total_hits + 1);
        },
      )
    ]

-- The loop for the least recently used slot, with `i` for the first of the entries that are left.
unfoldable pub oldest_slot : List ToolEntry → ℕ → ℕ → ℕ → ℕ
oldest_slot [] i oldest slot = slot
oldest_slot (e ∷ es) i oldest slot =
    if ltb e.lru_clock oldest
    then oldest_slot es (i + 1) e.lru_clock i
    else oldest_slot es (i + 1) oldest slot

-- The entry at the new or evicted slot.
abbrev pub fresh_entry : ℕ → Option (List ℕ) → Option (List ℕ) → List ℕ → ℕ → ℕ → ℕ → ToolEntry
fresh_entry hash tool_name args_json result_data stamp ttl clock = record {
  key_hash = hash;
  tool_name = tool_name;
  args_json = args_json;
  result_data = result_data;
  timestamp = stamp;
  ttl_seconds = ttl;
  access_count = 1;
  lru_clock = clock;
}

-- The update of an entry that is there.
abbrev pub renew : List ℕ → ℕ → ℕ → ℕ → ToolEntry → ToolEntry
renew result_data stamp ttl clock e = record e {
  result_data = result_data;
  timestamp = stamp;
  ttl_seconds = ttl;
  lru_clock = clock;
}

-- The entries with the result in its slot: of the entry found, a new one, or the one evicted.
unfoldable pub place : ToolCache → Option ToolEntry → ToolEntry → List ToolEntry
place cache (some e) fresh =
    change fresh.key_hash
      (renew fresh.result_data fresh.timestamp fresh.ttl_seconds fresh.lru_clock) cache.entries
place cache none fresh =
    if ltb (length cache.entries) cache.capacity
    then cache.entries ++ (fresh ∷ [])
    else set cache.entries (oldest_slot cache.entries 0 u64_max 0) fresh

-- `qwn_cache_tool_result`, where `wall_time` is what `time(NULL)` returns.
unfoldable pub cache_tool_result :
    ToolCache → ℕ → Option (List ℕ) → Option (List ℕ) → List ℕ → ℕ → ℕ → ℕ → ToolCache
cache_tool_result cache hash tool_name args_json result_data ttl_seconds current_time wall_time =
    let clock = u64 (cache.current_lru_clock + 1) in
    let stamp = if ltb 0 current_time then current_time else wall_time in
    let ttl = if ltb 0 ttl_seconds then ttl_seconds else 3600 in
    let fresh = fresh_entry hash tool_name args_json result_data stamp ttl clock in
    if hash == 0 then cache else record cache {
      entries = place cache (entry_of hash cache.entries) fresh;
      current_lru_clock = clock;
    }

-- `SessionContext`. `tokens` holds the `n_tokens` valid ones.
pub record Session : Type 0 where
  pub session_id : ℕ
  pub tokens : List ℕ
  pub capacity : ℕ
  pub frozen_prefix_tokens : ℕ
  pub is_frozen : Bool

-- `qwn_session_init`; `none` is -1, where the allocation fails.
unfoldable session_init : Bool → ℕ → ℕ → Option Session
session_init allocates session_id capacity =
    if allocates
    then some (record {
      session_id = session_id;
      tokens = [];
      capacity = if ltb 0 capacity then capacity else 4096;
      frozen_prefix_tokens = 0;
      is_frozen = false;
    })
    else none

-- What `qwn_session_free` leaves.
unfoldable session_free : Session → Session
session_free ctx = record ctx { tokens = []; capacity = 0 }

-- `qwn_reuse_context` on a session that has its array; `none` is -1.
unfoldable pub reuse_context : Bool → Session → List ℕ → Option Session
reuse_context reallocates ctx new_tokens =
    let wanted = length ctx.tokens + length new_tokens in
    let grows = ltb ctx.capacity wanted in
    if length new_tokens == 0
    then none
    else if grows && not reallocates
    then none
    else some (record ctx {
      tokens = ctx.tokens ++ new_tokens;
      capacity = if grows then wanted * 2 else ctx.capacity;
    })

-- `qwn_freeze_session`
unfoldable freeze : Session → Session
freeze ctx = record ctx { frozen_prefix_tokens = length ctx.tokens; is_frozen = true }

-- `QwnAgenticEngine` without its decoder and its latency sum.
pub record Engine : Type 0 where
  pub tool_cache : ToolCache
  pub session_ctx : Session
  pub max_parallel_tools : ℕ
  pub use_cache : Bool
  pub use_context_reuse : Bool
  pub total_tasks : ℕ

abbrev engine_of : ToolCache → Option Session → Option Engine
engine_of cache none = none
engine_of cache (some session) = some (record {
  tool_cache = cache;
  session_ctx = session;
  max_parallel_tools = 8;
  use_cache = true;
  use_context_reuse = true;
  total_tasks = 0;
})

-- `qwn_agentic_engine_init`, with the outcomes of the two allocations; `none` is -1.
unfoldable engine_init : Bool → Bool → ℕ → Option Engine
engine_init allocates_cache allocates_session cache_capacity =
    if allocates_cache
    then engine_of (cache_init cache_capacity) (session_init allocates_session 1001 4096)
    else none

-- What `qwn_agentic_engine_free` leaves.
unfoldable engine_free : Engine → Engine
engine_free engine = record engine {
  tool_cache = record cache { entries = []; capacity = 0 };
  session_ctx = session_free engine.session_ctx;
}
  where
    open engine use {tool_cache as cache}
