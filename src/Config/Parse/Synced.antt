-- ===== src/Config/Parse/Synced.antt =====
-- The text and the mode of the KV cache agree throughout the parse.
use qwanto.Base.{
  ℕ, ◌≡◌, ◌≢◌, refl, arith, Option, none, some, List, [], ◌∷◌, inl, inr, Option-cases, take, subst,
  sym, ap,
}
use qwanto.Config.{Libc, Message, kv_mismatch, kv_cache_mode_parse, KvMode, Config, config_default}
use qwanto.Container.Open.{same_bytes}
use qwanto.Config.Valid.{IsValid, validate, validate_iff, sync_complete}
use qwanto.Config.Parse.{
  Checked, ok, fail, Flag, backend, gpu_device, memory_budget, threads, ctx_size, max_tokens, seed,
  kv_cache, draft_length, maximum_rollback, refused, flag_of, missing_value, positive_of,
  parse_positive, nonnegative_of, parse_nonnegative, budget_of, parse_memory_budget_mb,
  parse_backend, update, with_kv, with_value, alone, and_then, parse_args, checked_config, parse,
}

ok_eq {ℓ} : {A : Type ℓ} {a b : A} → ok a ≡ ok b → a ≡ b
ok_eq e = cc

module _ (libc : Libc) where
  abbrev Synced : Config libc → Type 0
  Synced c = kv_cache_mode_parse c.kv_cache_mode ≡ some c.kv_cache_mode_typed

  -- A result in step, or another failure than the one for a result out of step.
  abbrev Fine : Checked (Config libc) → Type 0
  Fine (ok c) = Synced c
  Fine (fail m) = m ≢ kv_mismatch

  abbrev Other {ℓ} : {A : Type ℓ} → Checked A → Type 0
  Other (ok a) = Unit
  Other (fail m) = m ≢ kv_mismatch

  update-Fine {ℓ} :
      {A : Type ℓ} (r : Checked A) (f : A → Config libc)
      → Other r
      → ((a : A) → Synced (f a))
      → Fine (update libc r f)
  update-Fine (ok a) f o h = h a
  update-Fine (fail m) f o h = o

  parse_positive-Other : (v : List ℕ) → Other (parse_positive libc v)
  unfolding parse_positive positive_of
  parse_positive-Other v = ground arith

  parse_nonnegative-Other : (v : List ℕ) → Other (parse_nonnegative libc v)
  unfolding parse_nonnegative nonnegative_of
  parse_nonnegative-Other v = ground arith

  parse_memory_budget_mb-Other : (v : List ℕ) → Other (parse_memory_budget_mb libc v)
  unfolding parse_memory_budget_mb budget_of
  parse_memory_budget_mb-Other v = ground arith

  parse_backend-Other : (v : List ℕ) → Other (parse_backend libc v)
  unfolding parse_backend
  parse_backend-Other v = ground arith

  with_kv-Fine :
      (c : Config libc) (text : List ℕ) (o : Option KvMode)
      → kv_cache_mode_parse text ≡ o
      → Fine (with_kv libc c text o)
  with_kv-Fine c text none e = λ q. ground arith
  with_kv-Fine c text (some mode) e = e

  with_value-Fine :
      (f : Flag) (v : List ℕ) (c : Config libc) → Synced c → Fine (with_value libc f v c)
  unfolding with_value
  with_value-Fine backend v c s =
      update-Fine (parse_backend libc v) _ (parse_backend-Other v) (λ a. s)
  with_value-Fine gpu_device v c s =
      update-Fine (parse_nonnegative libc v) _ (parse_nonnegative-Other v) (λ a. s)
  with_value-Fine memory_budget v c s =
      update-Fine (parse_memory_budget_mb libc v) _ (parse_memory_budget_mb-Other v) (λ a. s)
  with_value-Fine threads v c s =
      update-Fine (parse_nonnegative libc v) _ (parse_nonnegative-Other v) (λ a. s)
  with_value-Fine ctx_size v c s =
      update-Fine (parse_positive libc v) _ (parse_positive-Other v) (λ a. s)
  with_value-Fine max_tokens v c s =
      update-Fine (parse_positive libc v) _ (parse_positive-Other v) (λ a. s)
  with_value-Fine seed v c s =
      update-Fine (parse_nonnegative libc v) _ (parse_nonnegative-Other v) (λ a. s)
  with_value-Fine draft_length v c s =
      update-Fine (parse_positive libc v) _ (parse_positive-Other v) (λ a. s)
  with_value-Fine maximum_rollback v c s =
      update-Fine (parse_positive libc v) _ (parse_positive-Other v) (λ a. s)
  with_value-Fine kv_cache v c s = with_kv-Fine c (take 23 v) _ refl
  with_value-Fine _ v c s = s

  alone-Fine : (f : Flag) (c : Config libc) → Synced c → Fine (alone libc f c)
  unfolding alone
  alone-Fine refused c s = λ q. ground arith
  alone-Fine _ c s = s

  missing-Fine : (f : Flag) (m : Message) → missing_value f ≡ some m → m ≢ kv_mismatch
  unfolding missing_value
  missing-Fine _ m e = λ q. ground arith

  and_then-Fine :
      (r : Checked (Config libc)) (f : Config libc → Checked (Config libc))
      → Fine r
      → ((c : Config libc) → Synced c → Fine (f c))
      → Fine (and_then libc r f)
  and_then-Fine (ok c) f s h = h c s
  and_then-Fine (fail m) f s h = s

  parse_args-Fine :
      (args : List (List ℕ)) (c : Config libc) → Synced c → Fine (parse_args libc args c)
  unfolding parse_args
  parse_args-Fine [] c s = s
  parse_args-Fine (arg ∷ []) c s = elim (Option-cases (missing_value (flag_of arg))) [
    | inl e ↦ rw (e, parse_args) (alone-Fine (flag_of arg) c s)
    | inr (m, e) ↦ rw (e, parse_args) (missing-Fine (flag_of arg) m e)
  ]
  parse_args-Fine (arg ∷ value ∷ args) c s = elim (Option-cases (missing_value (flag_of arg))) [
    | inl e ↦
        rw (e, parse_args)
          (and_then-Fine (alone libc (flag_of arg) c) _ (alone-Fine (flag_of arg) c s)
            (λ d t. parse_args-Fine (value ∷ args) d t))
    | inr (m, e) ↦
        rw (e, parse_args)
          (and_then-Fine (with_value libc (flag_of arg) value c) _
            (with_value-Fine (flag_of arg) value c s) (λ d t. parse_args-Fine args d t))
  ]

  default-Synced : Synced (config_default libc)
  unfolding kv_cache_mode_parse same_bytes
  default-Synced = refl

  validate_in_step : (c : Config libc) → Synced c → validate libc c ≢ some kv_mismatch
  unfolding validate
  validate_in_step c s e =
      ground (arith, sync_complete (kv_cache_mode_parse c.kv_cache_mode) c.kv_cache_mode_typed s)

  checked_config-Fine :
      (c : Config libc) (o : Option Message)
      → Synced c
      → o ≢ some kv_mismatch
      → Fine (checked_config libc c o)
  checked_config-Fine c none s h = s
  checked_config-Fine c (some m) s h = λ e. h (ap some e)

  -- The parse of the options never fails for a KV-cache text and mode that do not agree: an option sets both
  -- or neither, so that only a caller that fills in the structure itself meets that check.
  pub parse_in_step : (args : List (List ℕ)) → parse libc args ≢ fail kv_mismatch
  unfolding parse
  parse_in_step args e =
      subst Fine e
        (and_then-Fine (parse_args libc args (config_default libc)) _
          (parse_args-Fine args (config_default libc) default-Synced)
          (λ c s. checked_config-Fine c (validate libc c) s (validate_in_step c s)))
        refl

  checked_config-eq-ok :
      (c d : Config libc) (o : Option Message)
      → o ≡ validate libc c
      → checked_config libc c o ≡ ok d
      → IsValid libc d
  checked_config-eq-ok c d none h e =
      subst (IsValid libc) (ok_eq e) ((validate_iff libc c).0 (sym h))
  checked_config-eq-ok c d (some m) h e = absurd (ground arith)

  and_then-eq-ok :
      (r : Checked (Config libc)) {d : Config libc}
      → and_then libc r (λ c. checked_config libc c (validate libc c)) ≡ ok d
      → IsValid libc d
  and_then-eq-ok (ok c) {d} e = checked_config-eq-ok c d (validate libc c) refl e
  and_then-eq-ok (fail m) {d} e = absurd (ground arith)

  -- Whatever the arguments, a configuration that the parse accepts is valid.
  pub parse-IsValid :
      (args : List (List ℕ)) {c : Config libc} → parse libc args ≡ ok c → IsValid libc c
  unfolding parse
  parse-IsValid args e = and_then-eq-ok (parse_args libc args (config_default libc)) e
