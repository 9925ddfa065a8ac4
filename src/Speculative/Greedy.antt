-- ===== src/Speculative/Greedy.antt =====
-- `spec_mtp_generate` against the target alone.
use qwanto.Base.{
  ◌⊎◌, ℕ, zero, suc, ◌+◌, ◌-◌, ◌≤◌, ◌<◌, ◌≡◌, inl, inr, Bool, true, false, ◌||◌, Option, none, some,
  List, [], ◌∷◌, ◌++◌, length, take, ltb, ◌==◌, arith, refl, sym, ap, ◌∙◌, subst, Bool-cases,
  Option-cases, true_ne_false,
}
use qwanto.Speculative.{
  Decoder, Outcome, got, failed, out_of_fuel, ◌>>=◌, required, Context, commit, prefill, up_to_eos,
  turn, turns, mtp_generate,
}
use qwanto.Speculative.Rounds.{Fits, commit-Ends, turn-Ends}
use qwanto.Speculative.Total.{Ends, Ends->>=, Ends-mono, IsTotal, Runs, stay, step}

take-all : (n : ℕ) (xs : List ℕ) → length xs ≤ n → take n xs ≡ xs
take-all zero [] h = refl
take-all zero (x ∷ xs) h = elim h [ ]
take-all (suc n) [] h = refl
take-all (suc n) (x ∷ xs) h = ap (λ z. x ∷ z) (take-all n xs (omega arith))

got_not_failed : {A : Type 0} {a : A} → ◌≡◌ {A = Outcome A} failed (got a) → ⊥
got_not_failed e = cc

returns :
    {A : Type 0} (P : A → Type 0) (m : Outcome A) → Ends (¬ Unit {0}) P m → (a : A) × (m ≡ got a)
returns P (got a) h = (a, refl)
returns P failed h = absurd (h tt)
returns P out_of_fuel h = elim h [ ]

module _ {S D : Type 0} (M : Decoder S D) where
  -- The reference: `n` tokens of the target alone, or fewer if the text ends.
  unfoldable pub greedy : ℕ → S → Option (List ℕ)
  greedy zero s = some []
  greedy (suc n) s = elim (M.best s == M.eos_id) [
    | true ↦ some (M.best s ∷ [])
    | false ↦ elim (M.forward s (M.best s)) [
      | none ↦ none
      | some s' ↦ elim (greedy n s') [ none ↦ none | some tokens ↦ some (M.best s ∷ tokens) ]
    ]
  ]

  -- The target after the prompt.
  unfoldable pub read_prompt : S → List ℕ → Option S
  read_prompt s [] = some s
  read_prompt s (token ∷ prompt) = elim (M.forward s token) [
    | none ↦ none
    | some s' ↦ read_prompt s' prompt
  ]

  -- What the target alone generates after the prompt.
  unfoldable pub greedy_decode : List ℕ → ℕ → Option (List ℕ)
  greedy_decode prompt n = elim (read_prompt M.reset prompt) [ none ↦ none | some s ↦ greedy n s ]

  up_to_eos_all :
      (tokens : List ℕ) → (up_to_eos M tokens).1 ≡ false → (up_to_eos M tokens).0 ≡ tokens
  unfolding up_to_eos
  up_to_eos_all [] e = refl
  up_to_eos_all (token ∷ tokens) e = elim (Bool-cases (token == M.eos_id)) [
    | inl h ↦ absurd (true_ne_false (rw h at e))
    | inr h ↦ rw (h, up_to_eos_all tokens (rw h at e)) refl
  ]

  read_prompt-next :
      (s s' : S) (token : ℕ) (prompt : List ℕ)
      → M.forward s token ≡ some s'
      → read_prompt s (token ∷ prompt) ≡ read_prompt s' prompt
  unfolding read_prompt
  read_prompt-next s s' token prompt e = rw (e, read_prompt) refl

  suc_add : (a n : ℕ) → suc (a + n) ≡ suc a + n
  suc_add a n = omega arith

  greedy-ended :
      (n : ℕ) {s u : S} {tokens : List ℕ}
      → Runs M s tokens u
      → (up_to_eos M tokens).1 ≡ true
      → greedy (length tokens + n) s ≡ some (up_to_eos M tokens).0
  unfolding greedy up_to_eos
  greedy-ended n (stay s) e = cc
  greedy-ended n (step s s' u tokens f r) e =
      subst (λ z. greedy z s ≡ some (up_to_eos M (M.best s ∷ tokens)).0) (suc_add (length tokens) n)
        (elim (Bool-cases (M.best s == M.eos_id)) [
          | inl h ↦ rw (h, greedy, up_to_eos) refl
          | inr h ↦ rw (h, f, greedy-ended n r (rw h at e), greedy, up_to_eos) refl
        ])

  greedy-goes_on :
      (n : ℕ) {s u : S} {tokens later : List ℕ}
      → Runs M s tokens u
      → (up_to_eos M tokens).1 ≡ false
      → greedy n u ≡ some later
      → greedy (length tokens + n) s ≡ some (tokens ++ later)
  unfolding greedy up_to_eos
  greedy-goes_on n {later} (stay s) e g = subst (λ z. greedy z s ≡ some later) (omega arith) g
  greedy-goes_on n {later} (step s s' u tokens f r) e g = elim (Bool-cases (M.best s == M.eos_id)) [
    | inl h ↦ absurd (true_ne_false (rw h at e))
    | inr h ↦
        let rest = greedy-goes_on n {later = later} r (rw h at e) g in
        subst (λ z. greedy z s ≡ some (M.best s ∷ (tokens ++ later))) (suc_add (length tokens) n)
          (rw (h, f, rest, greedy) refl)
  ]

module _ {S D : Type 0} (M : Decoder S D) (K : Type 0) (total : K → IsTotal M) where
  turns-Ends :
      (fuel room : ℕ) (ctx : Context S D)
      → room ≤ fuel
      → Fits M K total room ctx
      → Ends (¬ K) (λ x. greedy M room ctx.target ≡ some x.0) (turns M fuel room ctx)
  unfolding turns greedy
  turns-Ends zero zero ctx h fits = refl
  turns-Ends zero (suc room) ctx h fits = elim h [ ]
  turns-Ends (suc fuel) zero ctx h fits = refl
  turns-Ends (suc fuel) (suc room) ctx h fits =
      Ends->>= (¬ K) _ (λ (y : List ℕ × Context S D). greedy M (suc room) ctx.target ≡ some y.0)
        (turn M (suc room) ctx) (λ x. ending x.1 (take (suc room) x.0))
        (turn-Ends M K total (suc room) ctx (omega arith) fits)
        λ x (runs, some_token, few, left).
          generated x runs few (turns-Ends fuel (suc room - length x.0) x.1 (omega arith) left)
    where
      ending : Context S D → List ℕ → Outcome (List ℕ × Context S D)
      ending last tokens =
          let taken : List ℕ × Bool = up_to_eos M tokens in
          elim taken.1 [
            | true ↦ got (taken.0, last)
            | false ↦
                turns M fuel (suc room - length taken.0) last >>= λ (y : List ℕ × Context S D).
                got (taken.0 ++ y.0, y.1)
          ]

      Whole : Outcome (List ℕ × Context S D) → Type 0
      Whole m =
          Ends (¬ K) (λ (y : List ℕ × Context S D). greedy M (suc room) ctx.target ≡ some y.0) m

      -- The tokens emitted by the turn, and the turns after it.
      either :
          (x : List ℕ × Context S D)
          → Runs M ctx.target x.0 x.1.target
          → length x.0 + (suc room - length x.0) ≡ suc room
          → Ends
              (¬ K)
              (λ (y : List ℕ × Context S D). greedy M (suc room - length x.0) x.1.target ≡ some y.0)
              (turns M fuel (suc room - length x.0) x.1)
          → (t : Bool) → (up_to_eos M x.0).1 ≡ t
          → Whole (elim t [
            | true ↦ got ((up_to_eos M x.0).0, x.1)
            | false ↦
                turns M fuel (suc room - length (up_to_eos M x.0).0) x.1
                >>= λ (y : List ℕ × Context S D). got ((up_to_eos M x.0).0 ++ y.0, y.1)
          ])
      either x runs long ih true ended =
          subst (λ z. greedy M z ctx.target ≡ some (up_to_eos M x.0).0) long
            (greedy-ended M (suc room - length x.0) runs ended)
      either x runs long ih false goes = rw (up_to_eos_all M x.0 goes) (
          Ends->>= (¬ K) _ _ (turns M fuel (suc room - length x.0) x.1) _ ih λ y later.
            subst (λ z. greedy M z ctx.target ≡ some (x.0 ++ y.0)) long
              (greedy-goes_on M (suc room - length x.0) runs goes later))

      generated :
          (x : List ℕ × Context S D)
          → Runs M ctx.target x.0 x.1.target
          → length x.0 ≤ suc room
          → Ends
              (¬ K)
              (λ (y : List ℕ × Context S D). greedy M (suc room - length x.0) x.1.target ≡ some y.0)
              (turns M fuel (suc room - length x.0) x.1)
          → Whole (ending x.1 (take (suc room) x.0))
      generated x runs few ih =
          subst (λ z. Whole (ending x.1 z)) (sym (take-all (suc room) x.0 few))
            (either x runs (omega arith) ih (up_to_eos M x.0).1 refl)

  prefill-Ends :
      (prompt : List ℕ) (room : ℕ) (ctx : Context S D)
      → Fits M K total (length prompt + room) ctx
      → Ends
          (¬ K)
          (λ c. (read_prompt M ctx.target prompt ≡ some c.target) × Fits M K total room c)
          (prefill M ctx prompt)
  unfolding prefill read_prompt
  prefill-Ends [] room ctx h = (refl, λ k. omega (arith, h k))
  prefill-Ends (token ∷ prompt) room ctx h =
      Ends->>= (¬ K) _ _ (required (commit M ctx token)) _
        (commit-Ends M K total (length prompt + room) ctx token (λ k. omega (arith, h k)))
        λ c found. elim (Option-cases (M.mtp_forward c.target c.draft token)) [
          | inl e ↦ rw e (λ k. (total k).mtp_forwards c.target c.draft token e)
          | inr x ↦
              let (d, e) = x in
              rw e (
                Ends-mono (¬ K) _ _ (prefill M (record c { draft = d }) prompt)
                  (λ c' y. (read_prompt-next M ctx.target c.target token prompt found.0 ∙ y.0, y.1))
                  (prefill-Ends prompt room (record c { draft = d }) found.1))
        ]

  generate-Ends :
      (ctx : Context S D) (prompt : List ℕ) (n : ℕ)
      → ((length prompt == 0) || (n == 0) || ltb ctx.history_capacity (length prompt)) ≡ false
      → (K → length prompt + n ≤ ctx.history_capacity)
      → Ends
          (¬ K)
          (λ (x : List ℕ × Context S D). greedy_decode M prompt n ≡ some x.0)
          (mtp_generate M ctx prompt n)
  unfolding mtp_generate greedy_decode
  generate-Ends ctx prompt n taken fits =
      rw (taken, mtp_generate)
        (Ends->>= (¬ K) _ _ (prefill M _ prompt) _
          (prefill-Ends prompt n _ (λ k. omega (arith, fits k)))
          λ c (filled, left).
            Ends-mono (¬ K) _ _ (turns M n n c) (λ x e. rw (filled, greedy_decode) e)
              (turns-Ends n n c (omega arith) left))

module _ {S D : Type 0} (M : Decoder S D) (ctx : Context S D) (prompt : List ℕ) (n : ℕ) where
  -- At a temperature of at most 0, whatever the MTP head proposes, what `spec_mtp_generate` generates is
  -- what the target generates alone.
  pub mtp_generate-greedy_decode :
      {out : List ℕ} {last : Context S D}
      → mtp_generate M ctx prompt n ≡ got (out, last)
      → greedy_decode M prompt n ≡ some out
  unfolding mtp_generate
  mtp_generate-greedy_decode {out} {last} e =
      elim (Bool-cases
        ((length prompt == 0) || (n == 0) || ltb ctx.history_capacity (length prompt))) [
          | inl refused ↦ absurd (got_not_failed (rw (refused, mtp_generate) at e))
          | inr taken ↦
              subst (Ends (¬ ⊥) (λ (x : List ℕ × Context S D). greedy_decode M prompt n ≡ some x.0))
                e (generate-Ends M ⊥ (λ k. absurd k) ctx prompt n taken (λ k. absurd k))
        ]

  -- Where no call of the decoder fails, and the history has room for a prompt that is not empty and for the
  -- tokens asked for, at least one, `spec_mtp_generate` does not fail.
  mtp_generate-got :
      IsTotal M
      → 0 < length prompt
      → 0 < n
      → length prompt + n ≤ ctx.history_capacity
      → (out : List ℕ) × (last : Context S D) × (mtp_generate M ctx prompt n ≡ got (out, last))
  mtp_generate-got total some_token some_room fits =
      let taken : ((length prompt == 0) || (n == 0) || ltb ctx.history_capacity (length prompt))
          ≡ false =
        ground arith in
      let (x, e) =
        returns _ (mtp_generate M ctx prompt n)
          (generate-Ends M (Unit {0}) (λ k. total) ctx prompt n taken (λ k. fits)) in
      (x.0, x.1, e)

  -- On any prompt and any number of tokens, with any decoder: within as many turns as tokens are asked for,
  -- `spec_mtp_generate` at a temperature of at most 0 returns the tokens that the target generates alone,
  -- or fails, and then a call of the decoder can fail, the prompt is empty, no token is asked for, or the history
  -- has no room for the prompt and the tokens asked for.
  pub mtp_generate_ends :
      ((out : List ℕ) × (last : Context S D) × (mtp_generate M ctx prompt n ≡ got (out, last))
        × (greedy_decode M prompt n ≡ some out))
      ⊎ ((mtp_generate M ctx prompt n ≡ failed)
          × ¬ (
              IsTotal M
              × (0 < length prompt)
              × (0 < n)
              × (length prompt + n ≤ ctx.history_capacity)))
  unfolding mtp_generate
  mtp_generate_ends =
      elim (Bool-cases
        ((length prompt == 0) || (n == 0) || ltb ctx.history_capacity (length prompt))) [
          | inl refused ↦ at_failure (rw (refused, mtp_generate) refl)
          | inr taken ↦
              outcome (mtp_generate M ctx prompt n) refl
                (generate-Ends M ⊥ (λ k. absurd k) ctx prompt n taken (λ k. absurd k))
        ]
    where
      Fails : Type 0
      Fails =
          (mtp_generate M ctx prompt n ≡ failed)
          × ¬ (
              IsTotal M
              × (0 < length prompt)
              × (0 < n)
              × (length prompt + n ≤ ctx.history_capacity))

      Returns : Type 0
      Returns =
          (out : List ℕ) × (last : Context S D) × (mtp_generate M ctx prompt n ≡ got (out, last))
          × (greedy_decode M prompt n ≡ some out)

      at_failure : mtp_generate M ctx prompt n ≡ failed → Returns ⊎ Fails
      at_failure e = inr (
        e,
        λ k. let (out, last, e') = mtp_generate-got k.0 k.1 k.2 k.3 in got_not_failed (sym e ∙ e'),
      )

      outcome :
          (m : Outcome (List ℕ × Context S D))
          → mtp_generate M ctx prompt n ≡ m
          → Ends (¬ ⊥) (λ (x : List ℕ × Context S D). greedy_decode M prompt n ≡ some x.0) m
          → Returns ⊎ Fails
      outcome (got (out, last)) e h = inl (out, last, e, h)
      outcome failed e h = at_failure e
      outcome out_of_fuel e h = elim h [ ]
