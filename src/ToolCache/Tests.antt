-- ===== src/ToolCache/Tests.antt =====
-- A full cache of one entry, and the theorems at it.
use qwanto.Base.{◌≡◌, arith, true, none, some, [], ◌∷◌}
use qwanto.ToolCache.{ToolCache, get_cached_tool, cache_tool_result, Session}
use qwanto.ToolCache.Laws.{get_cached_tool-cache_tool_result}

abbrev sample_cache : ToolCache
sample_cache = record {
  entries =
      record {
        key_hash = 5;
        tool_name = none;
        args_json = none;
        result_data = 1 ∷ [];
        timestamp = 10;
        ttl_seconds = 60;
        access_count = 1;
        lru_clock = 1;
      }
      ∷ [];
  capacity = 1;
  current_lru_clock = 1;
  total_lookups = 0;
  total_hits = 0;
}

get_cached_tool-cache_tool_result_example :
    (get_cached_tool (cache_tool_result sample_cache 7 none none (2 ∷ []) 60 100 0) 7 160).0
    ≡ some (2 ∷ [])
get_cached_tool-cache_tool_result_example =
    get_cached_tool-cache_tool_result sample_cache 7 none none (2 ∷ []) 60 100 0 160 (omega arith)
      (omega arith) (omega arith) (omega arith) (omega arith) (omega arith) (omega arith)

abbrev sample_session : Session
sample_session = record {
  session_id = 1;
  tokens = 3 ∷ [];
  capacity = 2;
  frozen_prefix_tokens = 1;
  is_frozen = true;
}
