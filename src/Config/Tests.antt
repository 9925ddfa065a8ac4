-- ===== src/Config/Tests.antt =====
-- A command line, and the theorems at it.
use qwanto.Base.{
  false, ℕ, ◌+◌, ◌-◌, ◌*◌, ◌≡◌, ◌↔◌, refl, true, Option, none, some, List, [], ◌∷◌, ltb,
  if◌then◌else◌, pos, codes, ◌||◌,
}
use qwanto.Container.Open.{same_bytes}
use qwanto.Config.{Libc, Config, config_default, kv_cache_mode_parse, turboquant_q4}
use qwanto.Config.Valid.{
  IsValid, validate, validate_iff, out_of_sync, below_minus_one, known_quantization, known_kernel,
  known_thinking, known_kv, limits_bad,
}
use qwanto.Config.Parse.{
  ok, flag_of, missing_value, nonnegative_of, parse_nonnegative, with_value, alone, parse_args,
  parse,
}

-- Decimal digits only, and rates in percent.
abbrev digits : List ℕ → ℕ → Option ℕ
digits [] n = some n
digits (c ∷ cs) n = if ltb c 48 || ltb 57 c then none else digits cs (n * 10 + (c - 48))

abbrev sample_libc : Libc
sample_libc = record {
  Rate = ℕ;
  strtol = λ v. elim (digits v 0) [ none ↦ none | some n ↦ some (pos n) ];
  strtoull = λ v. digits v 0;
  strtod = λ v. elim (digits v 0) [ none ↦ 0 | some n ↦ n ];
  zero_rate = 0;
  below_zero = λ n. false;
  above_one = λ n. ltb 100 n;
}

abbrev sample_args : List (List ℕ)
sample_args =
    codes "--threads"
    ∷ codes "4"
    ∷ codes "--kv-cache"
    ∷ codes "qwn-q4-kv"
    ∷ codes "--speculative"
    ∷ []

abbrev sample_config : Config sample_libc
sample_config = record (config_default sample_libc) {
  cpu_threads = pos 4;
  kv_cache_mode = codes "qwn-q4-kv";
  kv_cache_mode_typed = turboquant_q4;
  speculative_decoding = true;
  thinking_mode = codes "none";
}

parses : parse sample_libc sample_args ≡ ok sample_config
unfolding parse parse_args flag_of missing_value with_value alone parse_nonnegative nonnegative_of
    kv_cache_mode_parse same_bytes validate out_of_sync below_minus_one known_quantization
    known_kernel known_thinking known_kv limits_bad
parses = refl

validate_iff_example :
    (validate sample_libc sample_config ≡ none) ↔ IsValid sample_libc sample_config
validate_iff_example = validate_iff sample_libc sample_config
