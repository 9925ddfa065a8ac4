-- ===== src/Speculative/Ring.antt =====
-- The token ring of c/qwn_speculative.c: `qwn_spec_ring_push`, `qwn_spec_ring_pop`, `qwn_spec_ring_clear`.
pub mod Queue
use qwanto.Base.{
  ℕ, zero, suc, ◌+◌, ◌-◌, ◌%◌, Option, none, some, List, [], ◌∷◌, ◌++◌, length, get_or, set, drop,
  replicate, ◌==◌, if◌then◌else◌,
}

-- `QWN_SPEC_RING_SIZE`
abbrev ring_size : ℕ
ring_size = 32

-- The ring of `QwnSpeculativeEngine`.
pub record Ring : Type 0 where
  pub ring_buffer : List ℕ
  pub ring_head : ℕ
  pub ring_tail : ℕ
  pub ring_count : ℕ

-- The ring that `qwn_speculative_engine_init` makes.
abbrev pub empty_ring : Ring
empty_ring = record { ring_buffer = replicate 32 0; ring_head = 0; ring_tail = 0; ring_count = 0 }

-- `qwn_spec_ring_push`
unfoldable pub ring_push : Ring → ℕ → Ring
ring_push r token =
    let full = r.ring_count == ring_size in
    record {
      ring_buffer = set r.ring_buffer r.ring_head token;
      ring_head = (r.ring_head + 1) % 32;
      ring_tail = if full then (r.ring_tail + 1) % 32 else r.ring_tail;
      ring_count = (if full then r.ring_count - 1 else r.ring_count) + 1;
    }

-- `qwn_spec_ring_pop`; `none` is -1.
unfoldable pub ring_pop : Ring → Option (ℕ × Ring)
ring_pop r =
    if r.ring_count == 0
    then none
    else some (
      get_or r.ring_buffer r.ring_tail 0,
      record r { ring_tail = (r.ring_tail + 1) % 32; ring_count = r.ring_count - 1 },
    )

-- `qwn_spec_ring_clear`
unfoldable pub ring_clear : Ring → Ring
ring_clear r = record r { ring_head = 0; ring_tail = 0; ring_count = 0 }

-- A call on the ring.
pub data RingOp : Type 0 where
  pushes : ℕ → RingOp
  pops : RingOp
  clears : RingOp

-- What the pops of a sequence of calls give.
unfoldable pub run_ring : List RingOp → Ring → List (Option ℕ)
run_ring [] r = []
run_ring (pushes token ∷ ops) r = run_ring ops (ring_push r token)
run_ring (clears ∷ ops) r = run_ring ops (ring_clear r)
run_ring (pops ∷ ops) r = elim (ring_pop r) [
  | none ↦ none ∷ run_ring ops r
  | some x ↦ some x.0 ∷ run_ring ops x.1
]

-- The same on a queue of at most 32 tokens, of which a push on a full one drops the first.
unfoldable pub run_queue : List RingOp → List ℕ → List (Option ℕ)
run_queue [] q = []
run_queue (pushes token ∷ ops) q =
    run_queue ops ((if length q == 32 then drop 1 q else q) ++ (token ∷ []))
run_queue (clears ∷ ops) q = run_queue ops []
run_queue (pops ∷ ops) [] = none ∷ run_queue ops []
run_queue (pops ∷ ops) (token ∷ q) = some token ∷ run_queue ops q
