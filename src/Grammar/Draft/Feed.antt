-- ===== src/Grammar/Draft/Feed.antt =====
-- `gr_feed` and `grammar_draft` of c/glm.c against the text that the walker has been fed.
use qwanto.Base.{
  ℕ, ◌≡◌, inl, inr, Bool, true, false, not, ◌&&◌, ◌||◌, List, [], ◌∷◌, ◌++◌, ltb, leb, ◌*◌,
  if◌then◌else◌, arith, refl, sym, ◌∙◌, subst, Bool-cases, append_nil, snoc_append, true_ne_false,
}
use qwanto.Grammar.{ref, Grammar, IsNarrow, State}
use qwanto.Grammar.Walk.{Verdict, consumed, rejected, off, state_init, accept, forced}
use qwanto.Grammar.Language.{Matches}
use qwanto.Grammar.Bounds.{IsSettled, accept-IsSettled}
use qwanto.Grammar.Walker.{IsDerivative, accept-IsDerivative}
use qwanto.Grammar.Forced.{forced-prefix}
use qwanto.Grammar.Draft.{
  Drafter, grammar_reset, resync, feed_byte, feed_bytes, gr_feed, grammar_draft,
}
use qwanto.Grammar.Draft.Tracking.{
  Tracks, InStep, consumed-Tracks, start-Tracks, rejected-Tracks, off-Tracks,
}

module _ (G : Grammar) (narrow : IsNarrow G) where
  resync-InStep : (h : List ℕ) (f : Drafter) (b : ℕ) → InStep G (h ++ (b ∷ [])) (resync G f b)
  unfolding resync
  resync-InStep h f b = go fresh.alive refl (accept G fresh b) refl
    where
      fresh : State
      fresh = state_init G

      at_root : Drafter
      at_root = record f { gst = fresh; armed = false }

      root : Tracks G h [] at_root
      root = start-Tracks G narrow h f

      derived : (x : Verdict × State) → accept G fresh b ≡ x → IsDerivative G fresh b [] x
      derived x e =
          subst (IsDerivative G fresh b []) e (accept-IsDerivative G narrow [] fresh b root.settled)

      go :
          (a : Bool)
          → fresh.alive ≡ a
          → (x : Verdict × State) → accept G fresh b ≡ x
          → InStep G (h ++ (b ∷ [])) (
              if a
              then elim x.0 [
                | consumed ↦ record f { gst = x.1; armed = true }
                | _ ↦ record f { gst = x.1; armed = false }
              ]
              else record f { gst = fresh; armed = false; on = false })
      go true live (consumed, S) e = (b ∷ [], consumed-Tracks G narrow {f = at_root} S b root e)
      go true live (rejected, S) e =
          ([], rejected-Tracks G narrow {f = at_root} S b root refl (derived (rejected, S) e).0)
      go true live (off, S) e = (
        [],
        off-Tracks G narrow (h ++ (b ∷ [])) (record f { gst = S; armed = false })
            (subst (λ x. IsSettled G x.1.st) e (accept-IsSettled G fresh b root.settled))
            (derived (off, S) e),
      )
      go false dead x e = (
        [],
        off-Tracks G narrow (h ++ (b ∷ [])) (record f { gst = fresh; armed = false; on = false })
            root.settled dead,
      )

  feed_byte-InStep :
      (h : List ℕ) (f : Drafter) (b : ℕ) → InStep G h f → InStep G (h ++ (b ∷ [])) (feed_byte G f b)
  unfolding feed_byte
  feed_byte-InStep h f b (u, t) = go (accept G f.gst b) refl
    where
      derived : (x : Verdict × State) → accept G f.gst b ≡ x → IsDerivative G f.gst b [] x
      derived x e =
          subst (IsDerivative G f.gst b []) e (accept-IsDerivative G narrow [] f.gst b t.settled)

      when_rejected :
          (S : State) (a : Bool)
          → S ≡ f.gst
          → f.armed ≡ a
          → InStep G (h ++ (b ∷ [])) (if a then resync G f b else record f { gst = S })
      when_rejected S true e armed = resync-InStep h f b
      when_rejected S false e armed = ([], rejected-Tracks G narrow {f = f} S b t armed e)

      go :
          (x : Verdict × State)
          → accept G f.gst b ≡ x
          → InStep G (h ++ (b ∷ [])) (elim x.0 [
            | consumed ↦ record f { gst = x.1; armed = true }
            | off ↦ record f { gst = x.1; on = false }
            | rejected ↦ if f.armed then resync G f b else record f { gst = x.1 }
          ])
      go (consumed, S) e = (u ++ (b ∷ []), consumed-Tracks G narrow {f = f} S b t e)
      go (rejected, S) e = when_rejected S f.armed (derived (rejected, S) e).0 refl
      go (off, S) e = (
        [],
        off-Tracks G narrow (h ++ (b ∷ [])) (record f { gst = S; on = false })
            (subst (λ x. IsSettled G x.1.st) e (accept-IsSettled G f.gst b t.settled))
            (derived (off, S) e),
      )

  feed_bytes-InStep :
      (h : List ℕ) (f : Drafter) (bytes : List ℕ)
      → InStep G h f
      → (feed_bytes G f bytes).on ≡ true
      → InStep G (h ++ bytes) (feed_bytes G f bytes)
  unfolding feed_bytes
  feed_bytes-InStep h f [] t on = subst (λ z. InStep G z f) (append_nil h) t
  feed_bytes-InStep h f (b ∷ bytes) t on =
      go (feed_byte G f b).on refl on
        (feed_bytes-InStep (h ++ (b ∷ [])) (feed_byte G f b) bytes (feed_byte-InStep h f b t))
    where
      next : Drafter
      next = feed_byte G f b

      go :
          (o : Bool)
          → next.on ≡ o
          → (let kept : Drafter = elim o [ true ↦ feed_bytes G next bytes | false ↦ next ] in
              kept.on)
            ≡ true
          → ((feed_bytes G next bytes).on ≡ true
              → InStep G ((h ++ (b ∷ [])) ++ bytes) (feed_bytes G next bytes))
          → InStep G (h ++ (b ∷ bytes)) (elim o [ true ↦ feed_bytes G next bytes | false ↦ next ])
      go true e on rest =
          subst (λ z. InStep G z (feed_bytes G next bytes)) (snoc_append h bytes b) (rest on)
      go false e on rest = absurd (true_ne_false (sym on ∙ e))

  -- If no position of the grammar leaves int16_t, the walker has read some last part of the text `h`, and `gr_feed` leaves it on, then it has read some
  -- last part of the text with the new bytes.
  pub gr_feed-InStep :
      (h : List ℕ) (f : Drafter) (bytes : List ℕ)
      → InStep G h f
      → (gr_feed G f bytes).on ≡ true
      → InStep G (h ++ bytes) (gr_feed G f bytes)
  unfolding gr_feed
  gr_feed-InStep h f bytes t on = elim (Bool-cases f.on) [
    | inl e ↦ subst Fed (sym e) (λ g. feed_bytes-InStep h f bytes t g) on
    | inr e ↦ subst Fed (sym e) (λ g. absurd (true_ne_false (sym g ∙ e))) on
  ]
    where
      Fed : Bool → Type 0
      Fed o =
          (if o then feed_bytes G f bytes else f).on ≡ true
          → InStep G (h ++ bytes) (if o then feed_bytes G f bytes else f)

  grammar_reset-InStep : (f : Drafter) → f.on ≡ true → InStep G [] (grammar_reset G f)
  unfolding grammar_reset
  grammar_reset-InStep f on =
      subst Reset (sym on) ([], start-Tracks G narrow [] (record f { on = (state_init G).alive }))
    where
      Reset : Bool → Type 0
      Reset o = InStep G [] (
          if o
          then record f { gst = state_init G; armed = false; on = (state_init G).alive }
          else f)

  forced-dead : (S : State) (max : ℕ) → S.alive ≡ false → forced G S max ≡ []
  unfolding forced
  forced-dead S max dead = ground (arith, dead)

  -- Where no position of the grammar leaves int16_t and the walker has read the last bytes `u` of the text, every word of the grammar that starts with `u`
  -- goes on with the bytes that `grammar_draft` hands to the tokenizer.
  pub grammar_draft-prefix :
      (h u : List ℕ) (f : Drafter) (cap : ℕ) (w : List ℕ)
      → Tracks G h u f
      → Matches G (ref G.root ∷ []) (u ++ w)
      → (v : List ℕ) × (w ≡ (grammar_draft G f cap).0 ++ v)
  unfolding grammar_draft
  grammar_draft-prefix h u f cap w t d =
      either (not f.on || not f.armed || ltb cap 1) ([], f) _ (w, refl)
        (either (leb 32 f.prop && ltb (f.acc * 2) f.prop) ([], record f { on = false })
          (forced G f.gst 511, f) (w, refl)
          (elim (Bool-cases f.gst.alive) [
            | inl live ↦ forced-prefix G narrow f.gst 511 w t.settled ((t.follows live w).1 d)
            | inr dead ↦
                subst (λ x. (v : List ℕ) × (w ≡ x ++ v)) (sym (forced-dead f.gst 511 dead))
                  (w, refl)
          ]))
    where
      Prefix : List ℕ × Drafter → Type 0
      Prefix x = (v : List ℕ) × (w ≡ x.0 ++ v)

      either :
          (a : Bool) (x y : List ℕ × Drafter) → Prefix x → Prefix y → Prefix (if a then x else y)
      either true x y p q = p
      either false x y p q = q
