-- ===== src/Speculative/Total.antt =====
-- A decoder whose calls do not fail.
use qwanto.Base.{ℕ, ◌≡◌, none, some, List, [], ◌∷◌, ◌++◌}
use qwanto.Speculative.{Decoder, Outcome, got, failed, out_of_fuel, ◌>>=◌}

-- The result is as stated, or a call has failed, which `F` allows; the fuel has not run out.
abbrev pub Ends : {A : Type 0} → Type 0 → (A → Type 0) → Outcome A → Type 0
Ends F P (got a) = P a
Ends F P failed = F
Ends F P out_of_fuel = ⊥

pub Ends->>= :
    {A B : Type 0} (F : Type 0) (P : A → Type 0) (Q : B → Type 0) (m : Outcome A)
    (f : A → Outcome B)
    → Ends F P m
    → ((a : A) → P a → Ends F Q (f a))
    → Ends F Q (m >>= f)
Ends->>= F P Q (got a) f h k = k a h
Ends->>= F P Q failed f h k = h
Ends->>= F P Q out_of_fuel f h k = h

pub Ends-mono :
    {A : Type 0} (F : Type 0) (P Q : A → Type 0) (m : Outcome A)
    → ((a : A) → P a → Q a)
    → Ends F P m
    → Ends F Q m
Ends-mono F P Q (got a) f h = f a h
Ends-mono F P Q failed f h = h
Ends-mono F P Q out_of_fuel f h = h

module _ {S D : Type 0} (M : Decoder S D) where
  -- No call of the decoder fails.
  pub record IsTotal : Type 0 where
    pub forwards : (s : S) (token : ℕ) → ¬ (M.forward s token ≡ none)
    pub chains : (s : S) (d : D) (token : ℕ) → ¬ (M.chain s d token ≡ none)
    pub mtp_forwards : (s : S) (d : D) (token : ℕ) → ¬ (M.mtp_forward s d token ≡ none)

  -- The target alone, which takes its best token each time.
  pub data Runs : S → List ℕ → S → Type 0 where
    stay : (s : S) → Runs s [] s
    step :
        (s s' u : S) (tokens : List ℕ)
        → M.forward s (M.best s) ≡ some s'
        → Runs s' tokens u
        → Runs s (M.best s ∷ tokens) u

  pub Runs-snoc :
      {s u u' : S} {tokens : List ℕ}
      → Runs s tokens u
      → M.forward u (M.best u) ≡ some u'
      → Runs s (tokens ++ (M.best u ∷ [])) u'
  Runs-snoc {u'} (stay s) e = step s u' u' [] e (stay u')
  Runs-snoc {u'} (step s s' u tokens h r) e = step s s' u' _ h (Runs-snoc r e)
