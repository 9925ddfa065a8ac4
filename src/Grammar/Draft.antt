-- ===== src/Grammar/Draft.antt =====
-- The use of the walker in c/glm.c: `grammar_reset`, `gr_feed` and `grammar_draft`.
pub mod Tracking
pub mod Feed
use qwanto.Base.{
  ℕ, ◌+◌, ◌*◌, Bool, true, false, not, ◌&&◌, ◌||◌, List, [], ◌∷◌, ltb, leb, if◌then◌else◌,
}
use qwanto.Grammar.{Grammar, State}
use qwanto.Grammar.Walk.{consumed, rejected, off, state_init, accept, forced}

-- `g_gst`, `g_gr_on` (set together with `g_gr_T`), `g_gr_armed`, `g_gr_prop` and `g_gr_acc`.
pub record Drafter : Type 0 where
  pub gst : State
  pub on : Bool
  pub armed : Bool
  pub prop : ℕ
  pub acc : ℕ

-- `grammar_reset`
unfoldable pub grammar_reset : Grammar → Drafter → Drafter
grammar_reset G f =
    let fresh = state_init G in
    if f.on then record f { gst = fresh; armed = false; on = fresh.alive } else f

-- The end of the loop's body in `gr_feed`: a new start at the root, and the byte once more.
unfoldable pub resync : Grammar → Drafter → ℕ → Drafter
resync G f b =
    let fresh = state_init G in
    let (verdict, S) = accept G fresh b in
    if fresh.alive
    then elim verdict [
      | consumed ↦ record f { gst = S; armed = true }
      | _ ↦ record f { gst = S; armed = false }
    ]
    else record f { gst = fresh; armed = false; on = false }

-- The loop's body in `gr_feed`.
unfoldable pub feed_byte : Grammar → Drafter → ℕ → Drafter
feed_byte G f b =
    let (verdict, S) = accept G f.gst b in
    elim verdict [
      | consumed ↦ record f { gst = S; armed = true }
      | off ↦ record f { gst = S; on = false }
      | rejected ↦ if f.armed then resync G f b else record f { gst = S }
    ]

unfoldable pub feed_bytes : Grammar → Drafter → List ℕ → Drafter
feed_bytes G f [] = f
feed_bytes G f (b ∷ bs) =
    let next = feed_byte G f b in elim next.on [ true ↦ feed_bytes G next bs | false ↦ next ]

-- `gr_feed` on the bytes that `tok_decode` gives for the token.
unfoldable pub gr_feed : Grammar → Drafter → List ℕ → Drafter
gr_feed G f bytes = if f.on then feed_bytes G f bytes else f

-- `grammar_draft` up to `tok_encode`: the bytes handed to it, and the state left.
unfoldable pub grammar_draft : Grammar → Drafter → ℕ → List ℕ × Drafter
grammar_draft G f cap =
    if not f.on || not f.armed || ltb cap 1
    then ([], f)
    else if leb 32 f.prop && ltb (f.acc * 2) f.prop
    then ([], record f { on = false })
    else (forced G f.gst 511, f)
