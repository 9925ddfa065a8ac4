-- ===== src/Speculative.antt =====
-- The speculative decoding of c/qwn_speculative.c: here the greedy branch of `spec_mtp_generate`.
pub mod Prefix
pub mod Total
pub mod Rounds
pub mod Ring
pub mod Greedy
mod Tests
use qwanto.Base.{
  ℕ, zero, suc, ◌+◌, ◌-◌, Bool, true, false, not, ◌&&◌, ◌||◌, Option, none, some, List, [], ◌∷◌,
  ◌++◌, length, take, min, ltb, ◌==◌, if◌then◌else◌,
}

-- The calls of the decoder. `S` is the state of the target's layers, `D` that of the MTP head with its
-- logits. `none` is a result other than 0.
pub record Decoder (S D : Type 0) : Type 0 where
  -- The states after `qwn_decoder_reset`.
  pub reset : S
  pub reset_mtp : D
  -- `qwn_decoder_forward` on the target
  pub forward : S → ℕ → Option S
  -- `spec_softmax` of the target's logits, then `spec_sample` at a temperature of at most 0
  pub best : S → ℕ
  -- the same on the logits of the MTP head
  pub propose : D → ℕ
  -- `qwn_decoder_mtp_forward` and `qwn_decoder_mtp_forward_chain`
  pub mtp_forward : S → D → ℕ → Option D
  pub chain : S → D → ℕ → Option D
  -- `spec_mtp_restore` of the second state, a snapshot
  pub restore : D → D → D
  pub eos_id : ℕ

-- `out_of_fuel` stands for none of the returns of the code.
pub data Outcome (A : Type 0) : Type 0 where
  got : A → Outcome A
  failed : Outcome A
  out_of_fuel : Outcome A

infixl 5 ◌>>=◌
abbrev pub ◌>>=◌ : {A B : Type 0} → Outcome A → (A → Outcome B) → Outcome B
got a >>= f = f a
failed >>= f = failed
out_of_fuel >>= f = out_of_fuel

abbrev pub required : {A : Type 0} → Option A → Outcome A
required none = failed
required (some a) = got a

-- `QwnSpecCounters`, the counts of tokens.
pub record Counters : Type 0 where
  pub proposed_tokens : ℕ
  pub accepted_tokens : ℕ
  pub rejected_tokens : ℕ
  pub bonus_tokens : ℕ
  pub target_passes : ℕ
  pub committed_tokens : ℕ

-- The counters after `memset`.
abbrev pub zero_counters : Counters
zero_counters = record {
  proposed_tokens = 0;
  accepted_tokens = 0;
  rejected_tokens = 0;
  bonus_tokens = 0;
  target_passes = 0;
  committed_tokens = 0;
}

-- `QwnSpecContext` with the decoder's states. `history` holds the `history_count` valid tokens.
pub record Context (S D : Type 0) : Type 0 where
  pub target : S
  pub draft : D
  pub history : List ℕ
  pub history_capacity : ℕ
  pub gamma : ℕ
  pub counters : Counters

module _ {S D : Type 0} where
  -- `spec_append_history`
  unfoldable pub append_history : Context S D → ℕ → Option (Context S D)
  append_history ctx token =
      if ltb (length ctx.history) ctx.history_capacity
      then some (record ctx { history = ctx.history ++ (token ∷ []) })
      else none

module _ {S D : Type 0} (M : Decoder S D) where
  -- A token is appended to the history and run through the target.
  unfoldable pub commit : Context S D → ℕ → Option (Context S D)
  commit ctx token = elim (append_history ctx token) [
    | none ↦ none
    | some ctx' ↦ elim (M.forward ctx.target token) [
      | none ↦ none
      | some target ↦ some (record ctx' { target = target })
    ]
  ]

  -- The MTP head after a token of the target.
  unfoldable pub follow : Context S D → ℕ → Option (Context S D)
  follow ctx token = elim (M.chain ctx.target ctx.draft token) [
    | none ↦ none
    | some draft ↦ some (record ctx { draft = draft })
  ]

  -- The loop over the prompt.
  unfoldable pub prefill : Context S D → List ℕ → Outcome (Context S D)
  prefill ctx [] = got ctx
  prefill ctx (token ∷ prompt) = do
    ctx' ← required (commit ctx token)
    draft ← required (M.mtp_forward ctx'.target ctx'.draft token)
    prefill (record ctx' { draft = draft }) prompt

  -- The loop that drafts `n` tokens: each with the snapshot before it, and the context after them.
  unfoldable pub drafts : ℕ → Context S D → Outcome (List (ℕ × D) × Context S D)
  drafts zero ctx = got ([], ctx)
  drafts (suc n) ctx = do
    ctx' ← required (
        follow (record ctx { counters = record c { proposed_tokens = c.proposed_tokens + 1 } })
          (M.propose ctx.draft))
    (rest, last) ← drafts n ctx'
    got ((M.propose ctx.draft, ctx.draft) ∷ rest, last)
    where
      open ctx use {counters as c}

  -- What the verification emits, whether it has rejected a draft, and the context.
  abbrev pub Verified : Type 0
  Verified = List ℕ × Bool × Context S D

  -- The rejection of a draft: the target's token in its place.
  unfoldable pub correct : Context S D → D → Outcome Verified
  correct ctx snapshot =
      let correction = M.best ctx.target in
      let counted : Context S D = record ctx {
        draft = M.restore ctx.draft snapshot;
        counters = record c {
          rejected_tokens = c.rejected_tokens + 1;
          bonus_tokens = c.bonus_tokens + 1;
          committed_tokens = c.committed_tokens + 1;
          target_passes = c.target_passes + 1;
        };
      } in
      do
        ctx' ← required (commit counted correction)
        ctx'' ← required (follow ctx' correction)
        got (correction ∷ [], true, ctx'')
    where
      open ctx use {counters as c}

  -- The loop that verifies the drafts.
  unfoldable pub verify : List (ℕ × D) → Context S D → Outcome Verified
  verify [] ctx = got ([], false, ctx)
  verify ((token, snapshot) ∷ rest) ctx = elim (token == M.best ctx.target) [
    | false ↦ correct ctx snapshot
    | true ↦ do
      ctx' ← required (
          commit
            (record ctx {
              counters = record c {
                accepted_tokens = c.accepted_tokens + 1;
                committed_tokens = c.committed_tokens + 1;
                target_passes = c.target_passes + 1;
              };
            })
            token)
      (emitted, rejected, last) ← verify rest ctx'
      got (token ∷ emitted, rejected, last)
  ]
    where
      open ctx use {counters as c}

  -- The bonus token after `accepted` drafts, none of them rejected, with room for `room` tokens.
  unfoldable pub bonus : ℕ → Verified → Outcome (List ℕ × Context S D)
  bonus room (emitted, rejected, ctx) =
      let token = M.best ctx.target in
      let counted : Context S D = record ctx {
        counters = record c {
          bonus_tokens = c.bonus_tokens + 1;
          committed_tokens = c.committed_tokens + 1;
          target_passes = c.target_passes + 1;
        };
      } in
      if not rejected && ltb (length emitted) room
      then (do
        ctx' ← required (commit counted token)
        ctx'' ← required (follow ctx' token)
        got (emitted ++ (token ∷ []), ctx''))
      else got (emitted, ctx)
    where
      open ctx use {counters as c}

  -- The tokens that are generated from those emitted, and whether the last one ends the text.
  unfoldable pub up_to_eos : List ℕ → List ℕ × Bool
  up_to_eos [] = ([], false)
  up_to_eos (token ∷ tokens) =
      let (rest, ended) = up_to_eos tokens in
      if token == M.eos_id then (token ∷ [], true) else (token ∷ rest, ended)

  -- One turn of the loop of `spec_mtp_generate`, with room for `room` tokens.
  unfoldable pub turn : ℕ → Context S D → Outcome (List ℕ × Context S D)
  turn room ctx = do
    (drafted, ctx') ← drafts (min ctx.gamma room) ctx
    verified ← verify drafted ctx'
    bonus room verified

  -- The loop: the tokens that are generated, the one that ends the text among them.
  unfoldable pub turns : ℕ → ℕ → Context S D → Outcome (List ℕ × Context S D)
  turns fuel zero ctx = got ([], ctx)
  turns zero (suc room) ctx = out_of_fuel
  turns (suc fuel) (suc room) ctx = do
    (emitted, ctx') ← turn (suc room) ctx
    let taken = up_to_eos (take (suc room) emitted)
    elim taken.1 [
      | true ↦ got (taken.0, ctx')
      | false ↦ do
        (later, last) ← turns fuel (suc room - length taken.0) ctx'
        got (taken.0 ++ later, last)
    ]

  -- `spec_mtp_generate` at a temperature of at most 0, where the model has an MTP head and top_p is 1.
  unfoldable pub mtp_generate : Context S D → List ℕ → ℕ → Outcome (List ℕ × Context S D)
  mtp_generate ctx prompt max_new_tokens =
      let started : Context S D = record ctx {
        target = M.reset;
        draft = M.reset_mtp;
        history = [];
        counters = zero_counters;
      } in
      if (length prompt == 0) || (max_new_tokens == 0) || ltb ctx.history_capacity (length prompt)
      then failed
      else (do filled ← prefill started prompt; turns max_new_tokens max_new_tokens filled)
