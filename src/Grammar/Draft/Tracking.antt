-- ===== src/Grammar/Draft/Tracking.antt =====
-- The walker of c/glm.c against the text that it has been fed.
use qwanto.Base.{
  ℕ, ◌≡◌, ◌↔◌, Bool, true, false, List, [], ◌∷◌, ◌++◌, if◌then◌else◌, refl, sym, ap, ◌∙◌, subst,
  append_assoc, append_nil, snoc_append, true_ne_false,
}
use qwanto.Grammar.{ref, Grammar, IsNarrow, State}
use qwanto.Grammar.Walk.{Verdict, consumed, off, state_init, accepted, advance, accept}
use qwanto.Grammar.Language.{Matches, Reads}
use qwanto.Grammar.Bounds.{IsSettled, state_init-IsSettled, accept-IsSettled}
use qwanto.Grammar.Walker.{IsDerivative, accept-IsDerivative, state_init-Reads}
use qwanto.Grammar.Draft.{Drafter}

-- The state reads what may follow `u` in a word of the grammar.
abbrev Follows : Grammar → List ℕ → State → Type 0
Follows G u S = (w : List ℕ) → Reads G S.st w ↔ Matches G (ref G.root ∷ []) (u ++ w)

-- After the bytes `h`, the walker has read their last part `u`; nothing, unless it is armed.
pub record Tracks (G : Grammar) (h u : List ℕ) (f : Drafter) : Type 0 where
  pub settled : IsSettled G f.gst.st
  pub follows : f.gst.alive ≡ true → Follows G u f.gst
  pub rest : (p : List ℕ) × (h ≡ p ++ u)
  pub idle : f.armed ≡ false → u ≡ []

-- Some last part of the bytes is what the walker has read.
abbrev pub InStep : Grammar → List ℕ → Drafter → Type 0
InStep G h f = (u : List ℕ) × Tracks G h u f

module _ (G : Grammar) (narrow : IsNarrow G) where
  accept-live : (S S' : State) (b : ℕ) → accept G S b ≡ (consumed, S') → S.alive ≡ true
  unfolding accept
  accept-live S S' b e = go S.alive (accepted S (advance G b S.st [])) (ap (λ x. x.0) e)
    where
      go : (t : Bool) (x : Verdict × State) → (if t then x else (off, S)).0 ≡ consumed → t ≡ true
      go true x v = refl
      go false x v = cc

  accept-Follows :
      (S S' : State) (b : ℕ) (u : List ℕ)
      → IsSettled G S.st
      → (S.alive ≡ true → Follows G u S)
      → accept G S b ≡ (consumed, S')
      → Follows G (u ++ (b ∷ [])) S'
  accept-Follows S S' b u n h e w =
      let (f, g) = h (accept-live S S' b e) (b ∷ w) in
      let d : Reads G S'.st w ↔ Reads G S.st (b ∷ w) =
        subst (IsDerivative G S b w) e (accept-IsDerivative G narrow w S b n) in
      rw (snoc_append u w b) (λ r. f (d.0 r), λ m. d.1 (g m))

  -- `gr_accept` has consumed the byte.
  pub consumed-Tracks :
      {h u : List ℕ} {f : Drafter} (S' : State) (b : ℕ)
      → Tracks G h u f
      → accept G f.gst b ≡ (consumed, S')
      → Tracks G (h ++ (b ∷ [])) (u ++ (b ∷ [])) (record f { gst = S'; armed = true })
  consumed-Tracks {h} {u} {f} S' b t e = record {
    settled = subst (λ x. IsSettled G x.1.st) e (accept-IsSettled G f.gst b t.settled);
    follows = λ live. accept-Follows f.gst S' b u t.settled t.follows e;
    rest = let (p, q) = t.rest in (p, ap (λ z. z ++ (b ∷ [])) q ∙ append_assoc p u (b ∷ []));
    idle = λ x. absurd (true_ne_false x);
  }

  -- The walker stands at the root.
  pub start-Tracks :
      (h : List ℕ) (f : Drafter) → Tracks G h [] (record f { gst = state_init G; armed = false })
  start-Tracks h f = record {
    settled = state_init-IsSettled G;
    follows = λ live w. state_init-Reads G narrow w live;
    rest = (h, append_nil h);
    idle = λ x. refl;
  }

  -- Nothing has been read yet, and the byte does not start a word.
  pub rejected-Tracks :
      {h u : List ℕ} {f : Drafter} (S' : State) (b : ℕ)
      → Tracks G h u f
      → f.armed ≡ false
      → S' ≡ f.gst
      → Tracks G (h ++ (b ∷ [])) [] (record f { gst = S' })
  rejected-Tracks {h} {u} {f} S' b t unarmed e = subst Tracking (sym e) (record {
    settled = t.settled;
    follows = λ live. subst (λ v. Follows G v f.gst) (t.idle unarmed) (t.follows live);
    rest = (h ++ (b ∷ []), append_nil (h ++ (b ∷ [])));
    idle = λ x. refl;
  })
    where
      Tracking : State → Type 0
      Tracking S = Tracks G (h ++ (b ∷ [])) [] (record f { gst = S })

  -- The walker is switched off.
  pub off-Tracks :
      (h : List ℕ) (f : Drafter) → IsSettled G f.gst.st → f.gst.alive ≡ false → Tracks G h [] f
  off-Tracks h f n dead = record {
    settled = n;
    follows = λ live. absurd (true_ne_false (sym live ∙ dead));
    rest = (h, append_nil h);
    idle = λ x. refl;
  }
