-- ===== src/PagedKv/Chunks.antt =====
-- The chunked-prefill scheduler of c/qwn_paged_kv.c.
use qwanto.Base.{ℕ, ◌≤◌, ◌≡◌, arith, ltb, ◌==◌, if◌then◌else◌, min, ◌<◌}
use qwanto.PagedKv.Pool.{BlockTable}

-- `QwnChunkedScheduler`
pub record Scheduler : Type 0 where
  pub max_chunk_tokens : ℕ
  pub active_requests : ℕ

-- `qwn_scheduler_init`
unfoldable scheduler_init : ℕ → Scheduler
scheduler_init max_chunk_tokens = record {
  max_chunk_tokens = if ltb 0 max_chunk_tokens then max_chunk_tokens else 512;
  active_requests = 0;
}

-- `qwn_scheduler_next_chunk`
unfoldable next_chunk : Scheduler → BlockTable → ℕ
next_chunk sched bt =
    if bt.prefill_remaining == 0
    then 1
    else if ltb sched.max_chunk_tokens bt.prefill_remaining
    then sched.max_chunk_tokens
    else bt.prefill_remaining

-- A scheduler that was initialised always gives a chunk: never empty, within its bound, one token when no
-- prompt remains, and else no more than what remains, so that a prefill step makes progress.
next_chunk-scheduler_init :
    (max_chunk_tokens : ℕ) (bt : BlockTable)
    → let sched = scheduler_init max_chunk_tokens in
      let chunk = next_chunk sched bt in
      (0 < chunk)
      × (chunk ≤ sched.max_chunk_tokens)
      × (chunk ≡ (
          if bt.prefill_remaining == 0 then 1 else min sched.max_chunk_tokens bt.prefill_remaining))
unfolding scheduler_init next_chunk
next_chunk-scheduler_init max_chunk_tokens bt = ground arith
