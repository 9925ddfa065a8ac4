-- ===== src/Config/Parse.antt =====
-- `qwn_runtime_config_parse`: the arguments, one after the other, and the validation of the result.
pub mod Synced
use qwanto.Base.{
  ℕ, zero, suc, ◌-◌, ◌*◌, ◌/◌, Bool, true, false, ◌||◌, ◌&&◌, not, Option, none, some, List, [],
  ◌∷◌, take, ltb, ◌==◌, if◌then◌else◌, ℤ, pos, negsuc, above, is_negative, codes, u64_max,
}
use qwanto.Config.{
  Libc, Message, silent, requires_value, not_positive, not_nonnegative, budget_requires,
  budget_invalid, backend_invalid, kv_requires, kv_invalid, quantization_requires, kernel_requires,
  thinking_requires, draft_requires, acceptance_requires, unsupported, is_text, kv_cache_mode_parse,
  Config, config_default, Backend, cpu, cuda, auto, KvMode,
}
use qwanto.Config.Valid.{is_empty, validate}

-- A result or the message of the failure.
pub data Checked {ℓ} (A : Type ℓ) : Type ℓ where
  ok : A → Checked A
  fail : Message → Checked A

-- The options, as the chain of `strcmp` tells them apart. Any other argument is passed over.
pub data Flag : Type 0 where
  backend gpu gpu_device memory_budget threads ctx_size max_tokens seed kv_cache : Flag
  quantization kernel thinking draft_model draft_length min_acceptance_rate : Flag
  maximum_rollback no_adaptive speculative refused other : Flag

unfoldable pub flag_of : List ℕ → Flag
flag_of arg =
    if is_text arg "--backend" || is_text arg "--gpu-backend"
    then backend
    else if is_text arg "--gpu"
    then gpu
    else if is_text arg "--gpu-device"
    then gpu_device
    else if is_text arg "--gpu-memory-budget-mb"
    then memory_budget
    else if is_text arg "--threads"
    then threads
    else if is_text arg "--ctx-size"
    then ctx_size
    else if is_text arg "--max-tokens"
    then max_tokens
    else if is_text arg "--seed"
    then seed
    else if is_text arg "--kv-cache"
    then kv_cache
    else if is_text arg "--quantization" || is_text arg "--quant"
    then quantization
    else if is_text arg "--kernel"
    then kernel
    else if is_text arg "--thinking"
    then thinking
    else if is_text arg "--draft-model"
    then draft_model
    else if is_text arg "--draft-length"
    then draft_length
    else if is_text arg "--min-acceptance-rate"
    then min_acceptance_rate
    else if is_text arg "--maximum-rollback"
    then maximum_rollback
    else if is_text arg "--no-adaptive-draft-length"
    then no_adaptive
    else if is_text arg "--speculative"
    then speculative
    else if is_text arg "--saguro" || is_text arg "--fused" || is_text arg "--auto-tune"
    then refused
    else if is_text arg "--saguro-draft" || is_text arg "--saguro-tier"
    then refused
    else other

-- Where the option is the last argument: the message when it wants a value, else `none`.
unfoldable pub missing_value : Flag → Option Message
missing_value backend = some silent
missing_value gpu_device = some silent
missing_value memory_budget = some silent
missing_value threads = some silent
missing_value ctx_size = some silent
missing_value max_tokens = some silent
missing_value seed = some silent
missing_value kv_cache = some kv_requires
missing_value quantization = some quantization_requires
missing_value kernel = some kernel_requires
missing_value thinking = some thinking_requires
missing_value draft_model = some draft_requires
missing_value draft_length = some silent
missing_value min_acceptance_rate = some acceptance_requires
missing_value maximum_rollback = some silent
missing_value _ = none

module _ (libc : Libc) where
  -- `parse_positive` on what `strtol` gives.
  unfoldable pub positive_of : Option ℤ → Checked ℤ
  positive_of none = fail not_positive
  positive_of (some n) = if not (above n 0) || above n 2147483647 then fail not_positive else ok n

  unfoldable pub parse_positive : List ℕ → Checked ℤ
  parse_positive value =
      if is_empty value then fail requires_value else positive_of (libc.strtol value)

  -- `parse_nonnegative`
  unfoldable pub nonnegative_of : Option ℤ → Checked ℤ
  nonnegative_of none = fail not_nonnegative
  nonnegative_of (some n) =
      if is_negative n || above n 2147483647 then fail not_nonnegative else ok n

  unfoldable pub parse_nonnegative : List ℕ → Checked ℤ
  parse_nonnegative value =
      if is_empty value then fail requires_value else nonnegative_of (libc.strtol value)

  -- `parse_memory_budget_mb`
  unfoldable pub budget_of : Option ℕ → Checked ℕ
  budget_of none = fail budget_invalid
  budget_of (some n) =
      if n == 0 || ltb (u64_max / (1024 * 1024)) n
      then fail budget_invalid
      else ok (n * 1024 * 1024)

  unfoldable pub parse_memory_budget_mb : List ℕ → Checked ℕ
  parse_memory_budget_mb value =
      if is_empty value then fail budget_requires else budget_of (libc.strtoull value)

  -- `parse_backend`
  unfoldable pub parse_backend : List ℕ → Checked Backend
  parse_backend value =
      if is_text value "cpu"
      then ok cpu
      else if is_text value "cuda"
      then ok cuda
      else if is_text value "auto"
      then ok Backend.auto
      else fail backend_invalid

  abbrev pub update {ℓ} : {A : Type ℓ} → Checked A → (A → Config libc) → Checked (Config libc)
  update (ok a) f = ok (f a)
  update (fail m) f = fail m

  -- The text of `--kv-cache`, cut off to its field, and its mode.
  abbrev pub with_kv : Config libc → List ℕ → Option KvMode → Checked (Config libc)
  with_kv c text none = fail kv_invalid
  with_kv c text (some mode) = ok (record c { kv_cache_mode = text; kv_cache_mode_typed = mode })

  -- An option with its value.
  unfoldable pub with_value : Flag → List ℕ → Config libc → Checked (Config libc)
  with_value backend v c = update (parse_backend v) λ b. record c { backend = b }
  with_value gpu_device v c = update (parse_nonnegative v) λ n. record c { gpu_device = n }
  with_value memory_budget v c =
      update (parse_memory_budget_mb v) λ n. record c { gpu_memory_budget_bytes = n }
  with_value threads v c = update (parse_nonnegative v) λ n. record c { cpu_threads = n }
  with_value ctx_size v c = update (parse_positive v) λ n. record c { context_size = n }
  with_value max_tokens v c = update (parse_positive v) λ n. record c { max_tokens = n }
  with_value seed v c = update (parse_nonnegative v) λ n. record c { seed = n }
  with_value kv_cache v c = with_kv c (take 23 v) (kv_cache_mode_parse (take 23 v))
  with_value quantization v c = ok (record c { quantization = take 31 v })
  with_value kernel v c = ok (record c { kernel = take 31 v })
  with_value thinking v c = ok (record c { thinking_mode = take 15 v })
  with_value draft_model v c = ok (record c { draft_model = take 1023 v })
  with_value draft_length v c =
      update (parse_positive v) λ n. record c { speculative_draft_length = n }
  with_value min_acceptance_rate v c = ok (record c { minimum_acceptance_rate = libc.strtod v })
  with_value maximum_rollback v c = update (parse_positive v) λ n. record c { maximum_rollback = n }
  with_value _ v c = ok c

  -- An option without a value.
  unfoldable pub alone : Flag → Config libc → Checked (Config libc)
  alone gpu c = ok (record c { backend = cuda })
  alone no_adaptive c = ok (record c { adaptive_draft_length = false })
  alone speculative c = ok (record c { speculative_decoding = true; thinking_mode = codes "none" })
  alone refused c = fail unsupported
  alone _ c = ok c

  abbrev pub and_then :
      Checked (Config libc) → (Config libc → Checked (Config libc)) → Checked (Config libc)
  and_then (ok c) f = f c
  and_then (fail m) f = fail m

  -- The loop over the arguments.
  unfoldable pub parse_args : List (List ℕ) → Config libc → Checked (Config libc)
  parse_args [] c = ok c
  parse_args (arg ∷ []) c = elim (missing_value (flag_of arg)) [
    | none ↦ alone (flag_of arg) c
    | some message ↦ fail message
  ]
  parse_args (arg ∷ value ∷ args) c = elim (missing_value (flag_of arg)) [
    | none ↦ and_then (alone (flag_of arg) c) (parse_args (value ∷ args))
    | some message ↦ and_then (with_value (flag_of arg) value c) (parse_args args)
  ]

  abbrev pub checked_config : Config libc → Option Message → Checked (Config libc)
  checked_config c none = ok c
  checked_config c (some message) = fail message

  -- `qwn_runtime_config_parse`
  unfoldable pub parse : List (List ℕ) → Checked (Config libc)
  parse args =
      and_then (parse_args args (config_default libc)) λ c. checked_config c (validate libc c)
