-- ===== src/Config.antt =====
-- The runtime options of c/qwn_runtime_config.c, and their validation.
pub mod Parse
pub mod Valid
mod Tests
use qwanto.Base.{
  ℕ, zero, suc, ◌<◌, Bool, true, false, ◌||◌, ◌&&◌, not, Option, none, some, List, [], ◌∷◌, ltb,
  if◌then◌else◌, ℤ, pos, negsuc, above, is_negative, codes, String,
}
use qwanto.Container.Open.{same_bytes}

-- `QwnRuntimeBackend`
pub data Backend : Type 0 where
  auto cpu cuda : Backend

-- `QwnRuntimeKvCacheMode`
pub data KvMode : Type 0 where
  fp16 q8 turboquant_q4 turboquant_paper auto : KvMode

-- The calls of the C library: the whole text as a number, `none` where `end == value || *end`; and
-- `strtod`, with the comparisons of its result with 0 and 1, both of which are false of a NaN.
pub record Libc : Type 1 where
  pub Rate : Type 0
  pub strtol : List ℕ → Option ℤ
  pub strtoull : List ℕ → Option ℕ
  pub strtod : List ℕ → Rate
  pub zero_rate : Rate
  pub below_zero : Rate → Bool
  pub above_one : Rate → Bool

-- Each message that the code writes to `error`; `silent` is where it returns -1 and writes none.
pub data Message : Type 0 where
  silent requires_value not_positive not_nonnegative budget_requires budget_invalid : Message
  backend_invalid kv_requires kv_invalid quantization_requires kernel_requires : Message
  thinking_requires draft_requires acceptance_requires unsupported : Message
  bad_device bad_sizes bad_kv kv_mismatch bad_quantization bad_kernel bad_thinking : Message
  bad_limits draft_with_mtp fused_unsupported : Message

-- `strcmp(value, word) == 0`
abbrev pub is_text : List ℕ → String → Bool
is_text value word = same_bytes value (codes word)

-- `qwn_runtime_kv_cache_mode_name`
abbrev pub kv_cache_mode_name : KvMode → List ℕ
kv_cache_mode_name fp16 = codes "fp16"
kv_cache_mode_name q8 = codes "q8"
kv_cache_mode_name turboquant_q4 = codes "turboquant-q4"
kv_cache_mode_name turboquant_paper = codes "turboquant-paper"
kv_cache_mode_name KvMode.auto = codes "auto"

-- `qwn_runtime_backend_name`
abbrev backend_name : Backend → List ℕ
backend_name cpu = codes "cpu"
backend_name cuda = codes "cuda"
backend_name Backend.auto = codes "auto"

-- `qwn_runtime_kv_cache_mode_parse`; `none` is -1.
unfoldable pub kv_cache_mode_parse : List ℕ → Option KvMode
kv_cache_mode_parse value =
    if is_text value "fp16"
    then some fp16
    else if is_text value "q8"
    then some q8
    else if is_text value "turboquant-q4" || is_text value "qwn-q4-kv"
    then some turboquant_q4
    else if is_text value "turboquant-paper"
    then some turboquant_paper
    else if is_text value "auto"
    then some KvMode.auto
    else none

module _ (libc : Libc) where
  open libc use {Rate}

  -- `QwnRuntimeConfig`; its flags are Booleans.
  pub record Config : Type 0 where
    pub backend : Backend
    pub gpu_device : ℤ
    pub gpu_memory_budget_bytes : ℕ
    pub cpu_threads : ℤ
    pub context_size : ℤ
    pub max_tokens : ℤ
    pub seed : ℤ
    pub kv_cache_mode : List ℕ
    pub kv_cache_mode_typed : KvMode
    pub quantization : List ℕ
    pub kernel : List ℕ
    pub thinking_mode : List ℕ
    pub speculative_decoding : Bool
    pub draft_model : List ℕ
    pub speculative_draft_length : ℤ
    pub minimum_acceptance_rate : Rate
    pub adaptive_draft_length : Bool
    pub maximum_rollback : ℤ
    pub fused_kernel : Bool

  -- `qwn_runtime_config_default`
  abbrev pub config_default : Config
  config_default = record {
    backend = Backend.auto;
    gpu_device = negsuc 0;
    gpu_memory_budget_bytes = 0;
    cpu_threads = pos 0;
    context_size = pos 4096;
    max_tokens = pos 256;
    seed = pos 0;
    kv_cache_mode = codes "fp16";
    kv_cache_mode_typed = fp16;
    quantization = codes "auto";
    kernel = codes "auto";
    thinking_mode = codes "medium";
    speculative_decoding = false;
    draft_model = [];
    speculative_draft_length = pos 4;
    minimum_acceptance_rate = libc.zero_rate;
    adaptive_draft_length = true;
    maximum_rollback = pos 16;
    fused_kernel = false;
  }
