-- ===== src/Speculative/Rounds.antt =====
-- The calls and loops of one turn of `spec_mtp_generate`, against runs of the target alone.
use qwanto.Base.{
  ℕ, zero, suc, ◌+◌, ◌-◌, ◌≤◌, ◌<◌, ◌≡◌, inl, inr, Bool, true, false, not, ◌&&◌, some, List, [],
  ◌∷◌, ◌++◌, length, min, ltb, ◌==◌, ==_iff, arith, refl, sym, ap, ◌∙◌, subst, Bool-cases,
  Option-cases, length-append, ltb→lt, true_ne_false,
}
use qwanto.Speculative.{
  Decoder, got, ◌>>=◌, required, Context, append_history, commit, follow, drafts, Verified, correct,
  verify, bonus, turn,
}
use qwanto.Speculative.Total.{Ends, Ends->>=, IsTotal, Runs, Runs-snoc, stay, step}

module _ {S D : Type 0} (M : Decoder S D) (K : Type 0) (total : K → IsTotal M) where
  -- Under `K`, the history has room for `room` tokens more.
  abbrev pub Fits : ℕ → Context S D → Type 0
  Fits room ctx = K → length ctx.history + room ≤ ctx.history_capacity

  pub commit-Ends :
      (room : ℕ) (ctx : Context S D) (token : ℕ)
      → Fits (suc room) ctx
      → Ends
          (¬ K)
          (λ c. (M.forward ctx.target token ≡ some c.target) × Fits room c)
          (required (commit M ctx token))
  unfolding commit append_history
  commit-Ends room ctx token h = elim (Bool-cases (ltb (length ctx.history) ctx.history_capacity)) [
    | inr full ↦ rw (full, commit) (λ k. let fits = h k in ground arith)
    | inl room_left ↦ elim (Option-cases (M.forward ctx.target token)) [
      | inl e ↦ rw (room_left, e, commit) (λ k. (total k).forwards ctx.target token e)
      | inr x ↦
          let (s, e) = x in
          rw (room_left, e, commit)
            (refl, λ k. omega (arith, h k, length-append ctx.history (token ∷ [])))
    ]
  ]

  follow-Ends :
      (room : ℕ) (ctx : Context S D) (token : ℕ)
      → Fits room ctx
      → Ends (¬ K) (λ c. (c.target ≡ ctx.target) × Fits room c) (required (follow M ctx token))
  unfolding follow
  follow-Ends room ctx token h = elim (Option-cases (M.chain ctx.target ctx.draft token)) [
    | inl e ↦ rw (e, follow) (λ k. (total k).chains ctx.target ctx.draft token e)
    | inr x ↦ let (d, e) = x in rw (e, follow) (refl, h)
  ]

  drafts-Ends :
      (n room : ℕ) (ctx : Context S D)
      → Fits room ctx
      → Ends
          (¬ K)
          (λ x. (length x.0 ≡ n) × (x.1.target ≡ ctx.target) × Fits room x.1)
          (drafts M n ctx)
  unfolding drafts
  drafts-Ends zero room ctx h = (refl, refl, h)
  drafts-Ends (suc n) room ctx h =
      Ends->>= (¬ K) _ _ (required (follow M _ (M.propose ctx.draft))) _
        (follow-Ends room _ (M.propose ctx.draft) h)
        λ c found.
          Ends->>= (¬ K) _ _ (drafts M n c) _ (drafts-Ends n room c found.1)
            λ x rest. (ap suc rest.0, rest.1 ∙ found.0, rest.2)

  -- What the verification of at most `most` drafts gives, with room for `room` tokens.
  abbrev IsVerified : ℕ → ℕ → Context S D → Verified M → Type 0
  IsVerified most room ctx (emitted, rejected, last) =
      Runs M ctx.target emitted last.target
      × (length emitted ≤ most)
      × Fits (room - length emitted) last
      × (rejected ≡ true → 0 < length emitted)
      × (rejected ≡ false → length emitted ≡ most)

  correct-Ends :
      (most room : ℕ) (ctx : Context S D) (snapshot : D)
      → Fits (suc room) ctx
      → Ends (¬ K) (IsVerified (suc most) (suc room) ctx) (correct M ctx snapshot)
  unfolding correct
  correct-Ends most room ctx snapshot h =
      Ends->>= (¬ K) _ _ (required (commit M _ (M.best ctx.target))) _
        (commit-Ends room _ (M.best ctx.target) h)
        λ c found.
          Ends->>= (¬ K) _ _ (required (follow M c (M.best ctx.target))) _
            (follow-Ends room c (M.best ctx.target) found.1)
            λ c' behind. (
              step ctx.target c'.target c'.target [] (found.0 ∙ ap some (sym behind.0))
                  (stay c'.target),
              omega arith,
              λ k. omega (arith, behind.1 k),
              λ e. omega arith,
              λ e. absurd (true_ne_false e),
            )

  verify-Ends :
      (drafted : List (ℕ × D)) (room : ℕ) (ctx : Context S D)
      → length drafted ≤ room
      → Fits room ctx
      → Ends (¬ K) (IsVerified (length drafted) room ctx) (verify M drafted ctx)
  unfolding verify
  verify-Ends [] room ctx fits h = (
    stay ctx.target,
    omega arith,
    λ k. omega (arith, h k),
    λ e. absurd (true_ne_false (sym e)),
    λ e. refl,
  )
  verify-Ends ((token, snapshot) ∷ rest) zero ctx fits h = elim fits [ ]
  verify-Ends ((token, snapshot) ∷ rest) (suc room) ctx fits h =
      elim (Bool-cases (token == M.best ctx.target)) [
        | inr other ↦ rw (other, verify) (correct-Ends (length rest) room ctx snapshot h)
        | inl same ↦
            rw (same, verify)
              (keep_draft same λ c fits_c. verify-Ends rest room c (omega arith) fits_c)
      ]
    where
      keep_draft :
          (token == M.best ctx.target) ≡ true
          → ((c : Context S D)
              → Fits room c
              → Ends (¬ K) (IsVerified (length rest) room c) (verify M rest c))
          → Ends (¬ K) (IsVerified (suc (length rest)) (suc room) ctx) (do
            c ← required (
                commit M
                  (record ctx {
                    counters = record ctx.counters {
                      accepted_tokens = ctx.counters.accepted_tokens + 1;
                      committed_tokens = ctx.counters.committed_tokens + 1;
                      target_passes = ctx.counters.target_passes + 1;
                    };
                  })
                  token)
            (emitted, rejected, last) ← verify M rest c
            got (token ∷ emitted, rejected, last))
      keep_draft same ih =
          let e : token ≡ M.best ctx.target = (==_iff token (M.best ctx.target)).0 same in
          Ends->>= (¬ K) _ _ (required (commit M _ token)) _ (commit-Ends room _ token h) λ c found.
            Ends->>= (¬ K) _ _ (verify M rest c) _ (ih c found.1)
              λ v (runs, few, left, some_left, all). (
                subst (λ z. Runs M ctx.target (z ∷ v.0) v.2.target) (sym e)
                    (step ctx.target c.target v.2.target v.0
                      (ap (M.forward ctx.target) (sym e) ∙ found.0) runs),
                omega arith,
                λ k. omega (arith, left k),
                λ t. omega arith,
                λ t. omega (arith, all t),
              )

  -- What a turn gives, with room for `room` tokens.
  abbrev IsTurn : ℕ → Context S D → List ℕ × Context S D → Type 0
  IsTurn room ctx (emitted, last) =
      Runs M ctx.target emitted last.target
      × (0 < length emitted)
      × (length emitted ≤ room)
      × Fits (room - length emitted) last

  bonus-Ends :
      (most room : ℕ) (ctx : Context S D) (v : Verified M)
      → 0 < room
      → most ≤ room
      → IsVerified most room ctx v
      → Ends (¬ K) (IsTurn room ctx) (bonus M room v)
  unfolding bonus
  bonus-Ends most room ctx (emitted, rejected, last) some_room fits
        (runs, few, left, some_left, all) =
      elim (Bool-cases (not rejected && ltb (length emitted) room)) [
        | inl more ↦ rw (more, bonus) (with_bonus (ltb→lt _ _ (and_right (not rejected) _ more)))
        | inr full ↦ rw (full, bonus) (runs, some_token rejected refl full, omega arith, left)
      ]
    where
      some_token :
          (t : Bool)
          → rejected ≡ t
          → (not t && ltb (length emitted) room) ≡ false
          → 0 < length emitted
      some_token true e full = some_left e
      some_token false e full = ground arith

      and_right : (t u : Bool) → (t && u) ≡ true → u ≡ true
      and_right true u h = h
      and_right false u h = cc

      with_bonus :
          length emitted < room
          → Ends (¬ K) (IsTurn room ctx) (do
            c ← required (
                commit M
                  (record last {
                    counters = record last.counters {
                      bonus_tokens = last.counters.bonus_tokens + 1;
                      committed_tokens = last.counters.committed_tokens + 1;
                      target_passes = last.counters.target_passes + 1;
                    };
                  })
                  (M.best last.target))
            c' ← required (follow M c (M.best last.target))
            got (emitted ++ (M.best last.target ∷ []), c'))
      with_bonus below =
          Ends->>= (¬ K) _ _ (required (commit M _ (M.best last.target))) _
            (commit-Ends (room - length emitted - 1) _ (M.best last.target)
              (λ k. omega (arith, left k, below)))
            λ c found.
              Ends->>= (¬ K) _ _ (required (follow M c (M.best last.target))) _
                (follow-Ends (room - length emitted - 1) c (M.best last.target) found.1)
                λ c' behind. (
                  Runs-snoc M runs (found.0 ∙ ap some (sym behind.0)),
                  omega (arith, length-append emitted (M.best last.target ∷ [])),
                  omega (arith, length-append emitted (M.best last.target ∷ []), below),
                  λ k. omega (arith, length-append emitted (M.best last.target ∷ []), behind.1 k),
                )

  pub turn-Ends :
      (room : ℕ) (ctx : Context S D)
      → 0 < room
      → Fits room ctx
      → Ends (¬ K) (IsTurn room ctx) (turn M room ctx)
  unfolding turn
  turn-Ends room ctx some_room h =
      Ends->>= (¬ K) _ _ (drafts M (min ctx.gamma room) ctx) _
        (drafts-Ends (min ctx.gamma room) room ctx h)
        λ x (long, same, left).
          Ends->>= (¬ K) _ _ (verify M x.0 x.1) _ (verify-Ends x.0 room x.1 (omega arith) left)
            λ v verified. bonus-Ends (length x.0) room ctx v some_room (omega arith) (
              subst (λ s. Runs M s v.0 v.2.target) same verified.0,
              verified.1,
              verified.2,
              verified.3,
              verified.4,
            )
