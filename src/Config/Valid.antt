-- ===== src/Config/Valid.antt =====
-- `qwn_runtime_config_validate`, and what it accepts.
use qwanto.Base.{
  ℕ, zero, suc, ◌+◌, ◌≤◌, ◌<◌, ◌≡◌, ◌↔◌, ◌⊎◌, inl, inr, refl, arith, Bool, true, false, ◌||◌, ◌&&◌,
  not, Option, none, some, List, [], ◌∷◌, if◌then◌else◌, ℤ, pos, negsuc, above, is_negative,
  true_ne_false, codes, subst, sym,
}
use qwanto.Container.Open.{same_bytes}
use qwanto.Container.Find.Names.{same_bytes-eq, same_bytes_refl}
use qwanto.Config.{
  kv_cache_mode_name, Libc, Message, bad_device, bad_sizes, bad_kv, kv_mismatch, bad_quantization,
  bad_kernel, bad_thinking, bad_limits, draft_with_mtp, fused_unsupported, is_text,
  kv_cache_mode_parse, KvMode, fp16, q8, turboquant_q4, turboquant_paper, Config,
}

abbrev same_mode : KvMode → KvMode → Bool
same_mode fp16 fp16 = true
same_mode q8 q8 = true
same_mode turboquant_q4 turboquant_q4 = true
same_mode turboquant_paper turboquant_paper = true
same_mode KvMode.auto KvMode.auto = true
same_mode _ _ = false

-- The block that compares the text with the typed mode: true where they do not agree.
unfoldable pub out_of_sync : Option KvMode → KvMode → Bool
out_of_sync none typed = true
out_of_sync (some parsed) typed = not (same_mode parsed typed)

unfoldable pub below_minus_one : ℤ → Bool
below_minus_one (pos n) = false
below_minus_one (negsuc zero) = false
below_minus_one (negsuc (suc n)) = true

unfoldable pub known_quantization : List ℕ → Bool
known_quantization v =
    is_text v "auto"
    || is_text v "q4_0"
    || is_text v "hyper_vsq2"
    || is_text v "fp16"
    || is_text v "fp32"

unfoldable pub known_kernel : List ℕ → Bool
known_kernel v = is_text v "auto" || is_text v "scalar" || is_text v "avx2" || is_text v "vnni"

unfoldable pub known_thinking : List ℕ → Bool
known_thinking v = is_text v "none" || is_text v "low" || is_text v "medium" || is_text v "high"

unfoldable pub known_kv : List ℕ → Bool
known_kv v =
    is_text v "fp16"
    || is_text v "q8"
    || is_text v "turboquant-q4"
    || is_text v "qwn-q4-kv"
    || is_text v "turboquant-paper"
    || is_text v "auto"

abbrev pub is_empty : List ℕ → Bool
is_empty [] = true
is_empty (c ∷ cs) = false

abbrev IsQuantization : List ℕ → Type 0
IsQuantization v =
    ((((v ≡ codes "auto") ⊎ (v ≡ codes "q4_0")) ⊎ (v ≡ codes "hyper_vsq2")) ⊎ (v ≡ codes "fp16"))
    ⊎ (v ≡ codes "fp32")

abbrev IsKernel : List ℕ → Type 0
IsKernel v = (((v ≡ codes "auto") ⊎ (v ≡ codes "scalar")) ⊎ (v ≡ codes "avx2")) ⊎ (v ≡ codes "vnni")

abbrev IsThinking : List ℕ → Type 0
IsThinking v =
    (((v ≡ codes "none") ⊎ (v ≡ codes "low")) ⊎ (v ≡ codes "medium")) ⊎ (v ≡ codes "high")

-- The texts of each KV-cache mode.
abbrev IsMode : List ℕ → KvMode → Type 0
IsMode v fp16 = v ≡ codes "fp16"
IsMode v q8 = v ≡ codes "q8"
IsMode v turboquant_q4 = (v ≡ codes "turboquant-q4") ⊎ (v ≡ codes "qwn-q4-kv")
IsMode v turboquant_paper = v ≡ codes "turboquant-paper"
IsMode v KvMode.auto = v ≡ codes "auto"

-- A text is the word that it equals.
is_text_iff : (v w : List ℕ) → (same_bytes v w ≡ true) ↔ (v ≡ w)
is_text_iff v w =
    (same_bytes-eq v w, λ e. subst (λ u. same_bytes u w ≡ true) (sym e) (same_bytes_refl w))

or_iff : {A B : Type 0} (x y : Bool) → (x ≡ true) ↔ A → (y ≡ true) ↔ B → (x || y ≡ true) ↔ (A ⊎ B)
or_iff true y f g = (λ e. inl (f.0 e), λ s. refl)
or_iff false y f g =
    (λ e. inr (g.0 e), λ s. elim s [ inl a ↦ absurd (true_ne_false (sym (f.1 a))) | inr b ↦ g.1 b ])

known_quantization_iff : (v : List ℕ) → (known_quantization v ≡ true) ↔ IsQuantization v
unfolding known_quantization
known_quantization_iff v =
    or_iff _ _
      (or_iff _ _
        (or_iff _ _ (or_iff _ _ (is_text_iff v (codes "auto")) (is_text_iff v (codes "q4_0")))
          (is_text_iff v (codes "hyper_vsq2")))
        (is_text_iff v (codes "fp16")))
      (is_text_iff v (codes "fp32"))

known_kernel_iff : (v : List ℕ) → (known_kernel v ≡ true) ↔ IsKernel v
unfolding known_kernel
known_kernel_iff v =
    or_iff _ _
      (or_iff _ _ (or_iff _ _ (is_text_iff v (codes "auto")) (is_text_iff v (codes "scalar")))
        (is_text_iff v (codes "avx2")))
      (is_text_iff v (codes "vnni"))

known_thinking_iff : (v : List ℕ) → (known_thinking v ≡ true) ↔ IsThinking v
unfolding known_thinking
known_thinking_iff v =
    or_iff _ _
      (or_iff _ _ (or_iff _ _ (is_text_iff v (codes "none")) (is_text_iff v (codes "low")))
        (is_text_iff v (codes "medium")))
      (is_text_iff v (codes "high"))

read_as :
    (v w : List ℕ) (m : KvMode)
    → v ≡ w
    → kv_cache_mode_parse w ≡ some m
    → kv_cache_mode_parse v ≡ some m
read_as v w m e h = subst (λ u. kv_cache_mode_parse u ≡ some m) (sym e) h

kv_cache_mode_parse_iff : (v : List ℕ) (m : KvMode) → (kv_cache_mode_parse v ≡ some m) ↔ IsMode v m
unfolding kv_cache_mode_parse same_bytes
kv_cache_mode_parse_iff v fp16 = (
  λ e. (is_text_iff v (codes "fp16")).0 (ground arith),
  λ e. read_as v (codes "fp16") fp16 e refl,
)
kv_cache_mode_parse_iff v q8 =
    (λ e. (is_text_iff v (codes "q8")).0 (ground arith), λ e. read_as v (codes "q8") q8 e refl)
kv_cache_mode_parse_iff v turboquant_q4 = (
  λ e.
      (or_iff _ _ (is_text_iff v (codes "turboquant-q4")) (is_text_iff v (codes "qwn-q4-kv"))).0
        (ground arith),
  λ x. elim x [
    | inl e ↦ read_as v (codes "turboquant-q4") turboquant_q4 e refl
    | inr e ↦ read_as v (codes "qwn-q4-kv") turboquant_q4 e refl
  ],
)
kv_cache_mode_parse_iff v turboquant_paper = (
  λ e. (is_text_iff v (codes "turboquant-paper")).0 (ground arith),
  λ e. read_as v (codes "turboquant-paper") turboquant_paper e refl,
)
kv_cache_mode_parse_iff v KvMode.auto = (
  λ e. (is_text_iff v (codes "auto")).0 (ground arith),
  λ e. read_as v (codes "auto") KvMode.auto e refl,
)

module _ (libc : Libc) where
  unfoldable pub limits_bad : Config libc → Bool
  limits_bad c =
      not (above c.speculative_draft_length 0)
      || above c.speculative_draft_length 16
      || not (above c.maximum_rollback 0)
      || above c.maximum_rollback 1024
      || libc.below_zero c.minimum_acceptance_rate
      || libc.above_one c.minimum_acceptance_rate

  -- `qwn_runtime_config_validate`: the message, or `none` for 0.
  unfoldable pub validate : Config libc → Option Message
  validate c =
      if below_minus_one c.gpu_device
      then some bad_device
      else if is_negative c.cpu_threads
          || not (above c.context_size 0)
          || not (above c.max_tokens 0)
      then some bad_sizes
      else if not (known_kv c.kv_cache_mode)
      then some bad_kv
      else if out_of_sync (kv_cache_mode_parse c.kv_cache_mode) c.kv_cache_mode_typed
      then some kv_mismatch
      else if not (known_quantization c.quantization)
      then some bad_quantization
      else if not (known_kernel c.kernel)
      then some bad_kernel
      else if not (known_thinking c.thinking_mode)
      then some bad_thinking
      else if limits_bad c
      then some bad_limits
      else if c.speculative_decoding && not (is_empty c.draft_model)
      then some draft_with_mtp
      else if c.fused_kernel
      then some fused_unsupported
      else none

  -- The condition that the validation amounts to.
  pub record IsValid (c : Config libc) : Type 0 where
    pub device : (c.gpu_device ≡ negsuc 0) ⊎ ((n : ℕ) × (c.gpu_device ≡ pos n))
    pub threads : (n : ℕ) × (c.cpu_threads ≡ pos n)
    pub context : (n : ℕ) × (c.context_size ≡ pos (n + 1))
    pub tokens : (n : ℕ) × (c.max_tokens ≡ pos (n + 1))
    pub kv : IsMode c.kv_cache_mode c.kv_cache_mode_typed
    pub quantization : IsQuantization c.quantization
    pub kernel : IsKernel c.kernel
    pub thinking : IsThinking c.thinking_mode
    pub draft_length : (n : ℕ) × (c.speculative_draft_length ≡ pos (n + 1)) × (n < 16)
    pub rollback : (n : ℕ) × (c.maximum_rollback ≡ pos (n + 1)) × (n < 1024)
    pub rate_low : libc.below_zero c.minimum_acceptance_rate ≡ false
    pub rate_high : libc.above_one c.minimum_acceptance_rate ≡ false
    pub draft : (c.speculative_decoding ≡ false) ⊎ (c.draft_model ≡ [])
    pub fused : c.fused_kernel ≡ false

device_sound : (z : ℤ) → below_minus_one z ≡ false → (z ≡ negsuc 0) ⊎ ((n : ℕ) × (z ≡ pos n))
unfolding below_minus_one
device_sound (pos n) h = inr (n, refl)
device_sound (negsuc zero) h = inl refl
device_sound (negsuc (suc n)) h = cc

positive_sound : (z : ℤ) (n : ℕ) → above z n ≡ true → (m : ℕ) × (z ≡ pos (m + 1)) × (n ≤ m)
positive_sound (pos zero) n h = absurd (ground arith)
positive_sound (pos (suc m)) n h = (m, ground arith, ground arith)
positive_sound (negsuc m) n h = cc

nonnegative_sound : (z : ℤ) → is_negative z ≡ false → (n : ℕ) × (z ≡ pos n)
nonnegative_sound (pos n) h = (n, refl)
nonnegative_sound (negsuc n) h = cc

bounded_sound :
    (z : ℤ) (n : ℕ) → above z 0 ≡ true → above z n ≡ false → (m : ℕ) × (z ≡ pos (m + 1)) × (m < n)
bounded_sound (pos zero) n h k = absurd (ground arith)
bounded_sound (pos (suc m)) n h k = (m, ground arith, ground arith)
bounded_sound (negsuc m) n h k = cc

sync_sound : (o : Option KvMode) (m : KvMode) → out_of_sync o m ≡ false → o ≡ some m
unfolding out_of_sync
sync_sound none m h = cc
sync_sound (some fp16) fp16 h = refl
sync_sound (some q8) q8 h = refl
sync_sound (some turboquant_q4) turboquant_q4 h = refl
sync_sound (some turboquant_paper) turboquant_paper h = refl
sync_sound (some KvMode.auto) KvMode.auto h = refl
sync_sound (some _) _ h = absurd (true_ne_false h)

draft_sound : (b : Bool) (cs : List ℕ) → b && not (is_empty cs) ≡ false → (b ≡ false) ⊎ (cs ≡ [])
draft_sound false cs h = inl refl
draft_sound true [] h = inr refl
draft_sound true (c ∷ cs) h = cc

device_complete : (z : ℤ) → (z ≡ negsuc 0) ⊎ ((n : ℕ) × (z ≡ pos n)) → below_minus_one z ≡ false
unfolding below_minus_one
device_complete (pos n) h = refl
device_complete (negsuc zero) h = refl
device_complete (negsuc (suc n)) h = elim h [
  | inl e ↦ absurd (ground arith)
  | inr (x, e) ↦ absurd (ground arith)
]

above_complete : (z : ℤ) (n m : ℕ) → z ≡ pos m → n < m → above z n ≡ true
above_complete z n m e h = rw e (ground arith)

within_complete : (z : ℤ) (n m : ℕ) → z ≡ pos m → m ≤ n → above z n ≡ false
within_complete z n m e h = rw e (ground arith)

nonnegative_complete : (z : ℤ) (m : ℕ) → z ≡ pos m → is_negative z ≡ false
nonnegative_complete z m e = rw e refl

same_mode_refl : (m : KvMode) → same_mode m m ≡ true
same_mode_refl fp16 = refl
same_mode_refl q8 = refl
same_mode_refl turboquant_q4 = refl
same_mode_refl turboquant_paper = refl
same_mode_refl KvMode.auto = refl

pub sync_complete : (o : Option KvMode) (m : KvMode) → o ≡ some m → out_of_sync o m ≡ false
unfolding out_of_sync
sync_complete o m e = rw (e, out_of_sync) (rw (same_mode_refl m) refl)

known_complete : (v : List ℕ) (m : KvMode) → kv_cache_mode_parse v ≡ some m → known_kv v ≡ true
unfolding kv_cache_mode_parse known_kv
known_complete v m e = ground arith

draft_complete : (b : Bool) (cs : List ℕ) → (b ≡ false) ⊎ (cs ≡ []) → b && not (is_empty cs) ≡ false
draft_complete false cs h = refl
draft_complete true [] h = refl
draft_complete true (c ∷ cs) h = ground arith

module _ (libc : Libc) where
  validate-IsValid : (c : Config libc) → validate libc c ≡ none → IsValid libc c
  unfolding validate limits_bad
  validate-IsValid c h = record {
    device = device_sound c.gpu_device (ground arith);
    threads = nonnegative_sound c.cpu_threads (ground arith);
    context = let p = positive_sound c.context_size 0 (ground arith) in (p.0, p.1);
    tokens = let p = positive_sound c.max_tokens 0 (ground arith) in (p.0, p.1);
    kv =
        (kv_cache_mode_parse_iff c.kv_cache_mode c.kv_cache_mode_typed).0
          (sync_sound (kv_cache_mode_parse c.kv_cache_mode) c.kv_cache_mode_typed (ground arith));
    quantization = (known_quantization_iff c.quantization).0 (ground arith);
    kernel = (known_kernel_iff c.kernel).0 (ground arith);
    thinking = (known_thinking_iff c.thinking_mode).0 (ground arith);
    draft_length = bounded_sound c.speculative_draft_length 16 (ground arith) (ground arith);
    rollback = bounded_sound c.maximum_rollback 1024 (ground arith) (ground arith);
    rate_low = ground arith;
    rate_high = ground arith;
    draft = draft_sound c.speculative_decoding c.draft_model (ground arith);
    fused = ground arith;
  }

  IsValid-validate : (c : Config libc) → IsValid libc c → validate libc c ≡ none
  unfolding validate limits_bad
  IsValid-validate c v = ground (
    arith,
    device_complete c.gpu_device v.device,
    nonnegative_complete c.cpu_threads v.threads.0 v.threads.1,
    above_complete c.context_size 0 (v.context.0 + 1) v.context.1,
    above_complete c.max_tokens 0 (v.tokens.0 + 1) v.tokens.1,
    known_complete c.kv_cache_mode c.kv_cache_mode_typed (mode v),
    sync_complete (kv_cache_mode_parse c.kv_cache_mode) c.kv_cache_mode_typed (mode v),
    (known_quantization_iff c.quantization).1 v.quantization,
    (known_kernel_iff c.kernel).1 v.kernel,
    (known_thinking_iff c.thinking_mode).1 v.thinking,
    above_complete c.speculative_draft_length 0 (v.draft_length.0 + 1) v.draft_length.1,
    within_complete c.speculative_draft_length 16 (v.draft_length.0 + 1) v.draft_length.1,
    v.draft_length.2,
    above_complete c.maximum_rollback 0 (v.rollback.0 + 1) v.rollback.1,
    within_complete c.maximum_rollback 1024 (v.rollback.0 + 1) v.rollback.1,
    v.rollback.2,
    v.rate_low,
    v.rate_high,
    v.fused,
    draft_complete c.speculative_decoding c.draft_model v.draft,
  )
    where
      mode : IsValid libc c → kv_cache_mode_parse c.kv_cache_mode ≡ some c.kv_cache_mode_typed
      mode w = (kv_cache_mode_parse_iff c.kv_cache_mode c.kv_cache_mode_typed).1 w.kv

  -- The validation accepts exactly the configurations with a device of at least -1, at least 0 threads, a
  -- context and a number of tokens of at least 1, a draft length in 1..16 and a rollback in 1..1024, with
  -- a rate that is neither below 0 nor above 1 (as a NaN is not), with one of the known names for the quantization,
  -- the kernel and the thinking mode and a KV-cache text that is one of its mode's, and which ask for no
  -- draft model with MTP and no fused kernel.
  pub validate_iff : (c : Config libc) → (validate libc c ≡ none) ↔ IsValid libc c
  validate_iff c = (validate-IsValid c, IsValid-validate c)

-- Every KV-cache mode is what its name parses to.
kv_cache_mode_parse-kv_cache_mode_name :
    (m : KvMode) → kv_cache_mode_parse (kv_cache_mode_name m) ≡ some m
unfolding kv_cache_mode_parse same_bytes
kv_cache_mode_parse-kv_cache_mode_name fp16 = refl
kv_cache_mode_parse-kv_cache_mode_name q8 = refl
kv_cache_mode_parse-kv_cache_mode_name turboquant_q4 = refl
kv_cache_mode_parse-kv_cache_mode_name turboquant_paper = refl
kv_cache_mode_parse-kv_cache_mode_name KvMode.auto = refl
