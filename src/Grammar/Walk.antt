-- ===== src/Grammar/Walk.antt =====
-- The walker of c/grammar.h, from `gr__set_add` to `gr_forced`.
use qwanto.Base.{
  ℕ, zero, suc, ◌+◌, ◌%◌, ◌^◌, Bool, true, false, not, ◌&&◌, ◌||◌, none, some, List, [], ◌∷◌, ◌++◌,
  length, get_or, replicate, leb, ◌==◌, if◌then◌else◌,
}
use qwanto.Grammar.{
  Class, cls, ref, Grammar, Frame, Stack, State, max_stacks, max_depth, alts_of, sym_at,
}

-- The stacks written so far, where the call returns 1 and where it returns 0.
pub data Walked : Type 0 where
  went : List Stack → Walked
  overflow : List Stack → Walked

-- `memcmp` of two frames.
unfoldable pub same_frame : Frame → Frame → Bool
same_frame x y = (x.r == y.r) && (x.a == y.a) && (x.s == y.s)

-- `memcmp` of two stacks after their lengths.
unfoldable pub same_stack : Stack → Stack → Bool
same_stack [] [] = true
same_stack [] (y ∷ ys) = false
same_stack (x ∷ xs) [] = false
same_stack (x ∷ xs) (y ∷ ys) = same_frame x y && same_stack xs ys

unfoldable pub holds : Stack → List Stack → Bool
holds k [] = false
holds k (x ∷ xs) = same_stack x k || holds k xs

-- `gr__set_add`
unfoldable pub set_add : List Stack → Stack → Walked
set_add out k =
    if holds k out
    then went out
    else if leb max_stacks (length out)
    then overflow out
    else went (out ++ (k ∷ []))

-- A stack that is put in normal form.
abbrev pub Settle : Type 0
Settle = Stack → List Stack → Walked

abbrev pub bump : Frame → Frame
bump t = record t { s = (t.s + 1) % 2 ^ 16 }

-- The frame at the start of alternate `a`, which is cast to int16_t.
abbrev pub entered : ℕ → ℕ → Frame
entered r a = record { r = r; a = a % 2 ^ 16; s = 0 }

-- The loop over the `n` alternates from `a` on of rule `r`, `next` being the recursive call.
unfoldable pub branch : Settle → ℕ → ℕ → ℕ → Settle
branch next r zero a k out = went out
branch next r (suc n) a k out = elim (leb max_depth (length k)) [
  | true ↦ overflow out
  | false ↦ elim (next (entered r a ∷ k) out) [
    | went out' ↦ branch next r n (a + 1) k out'
    | overflow out' ↦ overflow out'
  ]
]

-- The loop that pops used alternates; `descend` is what it does at a reference.
unfoldable pub settle : Grammar → (ℕ → Settle) → Settle
settle G descend [] out = set_add out []
settle G descend (t ∷ k) out = elim (sym_at G t) [
  | none ↦ settle G descend k out
  | some (cls c) ↦ set_add out (t ∷ k)
  | some (ref r) ↦ descend r (bump t ∷ k) out
]

-- `gr__normalize`, with `GR_MAX_DEPTH - depth` in place of `depth`.
unfoldable pub normalize : Grammar → ℕ → Settle
normalize G zero = settle G (λ r k out. overflow out)
normalize G (suc left) =
    settle G (λ r k out. branch (normalize G left) r (length (alts_of G r)) 0 k out)

unfoldable pub started : Walked → State
started (went []) = record { st = []; alive = false }
started (went (k ∷ ks)) = record { st = k ∷ ks; alive = true }
started (overflow ks) = record { st = ks; alive = false }

-- `gr_state_init`
unfoldable pub state_init : Grammar → State
state_init G = started (branch (normalize G max_depth) G.root (length (alts_of G G.root)) 0 [] [])

-- Whether the symbol at a frame is a class with the byte. A reference has an empty class.
unfoldable pub takes : Grammar → ℕ → Frame → Bool
takes G b t = elim (sym_at G t) [ some (cls c) ↦ get_or c b false | _ ↦ false ]

-- The loop of `gr_accept`.
unfoldable pub advance : Grammar → ℕ → List Stack → List Stack → Walked
advance G b [] out = went out
advance G b ([] ∷ ks) out = advance G b ks out
advance G b ((t ∷ k) ∷ ks) out = elim (takes G b t) [
  | false ↦ advance G b ks out
  | true ↦ elim (normalize G max_depth (bump t ∷ k) out) [
    | went out' ↦ advance G b ks out'
    | overflow out' ↦ overflow out'
  ]
]

-- The results 1, 0 and -1 of `gr_accept`.
pub data Verdict : Type 0 where
  consumed : Verdict
  rejected : Verdict
  off : Verdict

unfoldable pub accepted : State → Walked → Verdict × State
accepted S (went []) = (rejected, S)
accepted S (went (k ∷ ks)) = (consumed, record S { st = k ∷ ks })
accepted S (overflow out) = (off, record S { alive = false })

-- `gr_accept`
unfoldable pub accept : Grammar → State → ℕ → Verdict × State
accept G S b = if S.alive then accepted S (advance G b S.st []) else (off, S)

-- The union of two bitmaps.
unfoldable pub or_bits : Class → Class → Class
or_bits [] ys = ys
or_bits (x ∷ xs) [] = x ∷ xs
or_bits (x ∷ xs) (y ∷ ys) = (x || y) ∷ or_bits xs ys

-- The class that a frame adds to the mask.
unfoldable pub class_at : Grammar → Frame → Class
class_at G t = elim (sym_at G t) [ some (cls c) ↦ c | _ ↦ [] ]

-- The mask and `can_end` of `gr_admissible`, from the mask so far.
unfoldable pub mask_of : Grammar → List Stack → Class → Class × Bool
mask_of G [] mask = (mask, false)
mask_of G ([] ∷ ks) mask = ((mask_of G ks mask).0, true)
mask_of G ((t ∷ k) ∷ ks) mask = mask_of G ks (or_bits mask (class_at G t))

unfoldable pub count_bits : Class → ℕ
count_bits [] = 0
count_bits (x ∷ xs) = (if x then 1 else 0) + count_bits xs

-- `gr_admissible`: the count, the mask and `can_end`.
unfoldable pub admissible : Grammar → State → ℕ × Class × Bool
admissible G S =
    let result = mask_of G S.st (replicate 256 false) in (count_bits result.0, result.0, result.1)

-- The search for the first byte in the mask, with `b` for the first of the bits that are left.
unfoldable pub first_bit : Class → ℕ → ℕ
first_bit [] b = b
first_bit (x ∷ xs) b = elim x [ true ↦ b | false ↦ first_bit xs (b + 1) ]

-- The loop of `gr_forced`, with room for `max` more bytes.
unfoldable pub force : Grammar → ℕ → State → List ℕ
force G zero S = []
force G (suc max) S =
    let seen = admissible G S in
    let b = first_bit seen.1 0 in
    elim (not (seen.0 == 1) || seen.2 || leb 256 b) [
      | true ↦ []
      | false ↦
          let (verdict, S') = accept G S b in
          elim verdict [ consumed ↦ b ∷ force G max S' | _ ↦ [] ]
    ]

-- `gr_forced`
unfoldable pub forced : Grammar → State → ℕ → List ℕ
forced G S max = if not S.alive || (length S.st == 0) then [] else force G max S
