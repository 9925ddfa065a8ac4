-- ===== src/Speculative/Tests.antt =====
-- Runs of the speculative decoding and of the token ring, and uses of their theorems.
use qwanto.Base.{◌<◌, ◌≤◌, ◌⊎◌, ℕ, ◌+◌, ◌*◌, ◌%◌, some, List, [], ◌∷◌, ◌≡◌, refl, arith}
use qwanto.Speculative.{
  Decoder, got, failed, Context, zero_counters, append_history, commit, follow, prefill, drafts,
  correct, verify, bonus, up_to_eos, turn, turns, mtp_generate,
}
use qwanto.Speculative.Total.{IsTotal}
use qwanto.Speculative.Greedy.{greedy_decode, mtp_generate-greedy_decode, mtp_generate_ends}
use qwanto.Speculative.Ring.{empty_ring, pushes, pops, clears, run_ring, run_queue}
use qwanto.Speculative.Ring.Queue.{IsRing, run_ring-run_queue, contents}
use qwanto.Speculative.Prefix.{
  first_index, cache_init, cache_lookup, cache_insert, placed, oldest_entry, Call, inserts,
  looks_up, run_calls,
}
use qwanto.Speculative.Prefix.Lookup.{cache_lookup-cache_insert}

-- A target whose best token depends on what it has read, and a head that is right now and then.
abbrev toy : Decoder ℕ ℕ
toy = record {
  reset = 0;
  reset_mtp = 0;
  forward = λ s token. some ((s * 2 + token) % 7);
  best = λ s. s + 1;
  propose = λ d. d + 1;
  mtp_forward = λ s d token. some s;
  chain = λ s d token. some ((d * 2 + token) % 5);
  restore = λ d snapshot. snapshot;
  eos_id = 7;
}

abbrev fresh : Context ℕ ℕ
fresh = record {
  target = 0;
  draft = 0;
  history = [];
  history_capacity = 64;
  gamma = 4;
  counters = zero_counters;
}

-- Three drafts are accepted, the fourth is corrected, and the text ends.
abbrev last : Context ℕ ℕ
last = record {
  target = 5;
  draft = 3;
  history = 3 ∷ 1 ∷ 1 ∷ 2 ∷ 5 ∷ 7 ∷ [];
  history_capacity = 64;
  gamma = 4;
  counters = record {
    proposed_tokens = 4;
    accepted_tokens = 3;
    rejected_tokens = 1;
    bonus_tokens = 1;
    target_passes = 4;
    committed_tokens = 4;
  };
}

run : mtp_generate toy fresh (3 ∷ 1 ∷ []) 6 ≡ got (1 ∷ 2 ∷ 5 ∷ 7 ∷ [], last)
unfolding append_history commit follow prefill drafts correct verify bonus up_to_eos turn turns
    mtp_generate
run = refl

mtp_generate-greedy_decode_example : greedy_decode toy (3 ∷ 1 ∷ []) 6 ≡ some (1 ∷ 2 ∷ 5 ∷ 7 ∷ [])
mtp_generate-greedy_decode_example = mtp_generate-greedy_decode toy fresh (3 ∷ 1 ∷ []) 6 run

mtp_generate_ends_example :
    ((out : List ℕ) × (end : Context ℕ ℕ) × (mtp_generate toy fresh (3 ∷ []) 5 ≡ got (out, end))
      × (greedy_decode toy (3 ∷ []) 5 ≡ some out))
    ⊎ ((mtp_generate toy fresh (3 ∷ []) 5 ≡ failed)
        × ¬ (IsTotal toy × (0 < 1) × (0 < 5) × (1 + 5 ≤ fresh.history_capacity)))
mtp_generate_ends_example = mtp_generate_ends toy fresh (3 ∷ []) 5

empty_ring-IsRing : IsRing empty_ring
empty_ring-IsRing = record { size = refl; below = omega arith; few = omega arith; behind = refl }

run_ring-run_queue_example :
    run_ring (pushes 4 ∷ pushes 5 ∷ pops ∷ clears ∷ pops ∷ []) empty_ring
    ≡ run_queue (pushes 4 ∷ pushes 5 ∷ pops ∷ clears ∷ pops ∷ []) (contents empty_ring)
run_ring-run_queue_example =
    run_ring-run_queue (pushes 4 ∷ pushes 5 ∷ pops ∷ clears ∷ pops ∷ []) empty_ring
      empty_ring-IsRing

-- A cache of two entries, in which only the first is looked up again.
abbrev calls_before : List (Call ℕ)
calls_before = inserts 7 ((1, 50) ∷ []) ∷ inserts 8 ((2, 40) ∷ []) ∷ looks_up 7 4 ∷ []

abbrev third_prefix : List (ℕ × ℕ)
third_prefix = (3, 30) ∷ (4, 20) ∷ (5, 10) ∷ []

-- The third prefix takes the slot of the second.
evicts :
    (cache_lookup (cache_insert (run_calls calls_before (cache_init 2)) 9 third_prefix) 8 4).0 ≡ []
unfolding first_index cache_init cache_lookup cache_insert placed oldest_entry run_calls
evicts = refl

cache_lookup-cache_insert_example :
    (cache_lookup (cache_insert (run_calls calls_before (cache_init 2)) 9 third_prefix) 9 2).0
    ≡ (3, 30) ∷ (4, 20) ∷ []
cache_lookup-cache_insert_example =
    cache_lookup-cache_insert 2 calls_before 9 2 third_prefix (omega arith) (omega arith)
      (omega arith)
