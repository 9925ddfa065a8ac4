-- ===== src/ToolCache/Laws.antt =====
-- What the tool cache remembers, and how large it grows.
use qwanto.Base.{
  ℕ, zero, suc, ◌+◌, ◌^◌, ◌≤◌, ◌<◌, ◌≡◌, refl, ap, ◌∙◌, arith, Bool, false, Option, none, some,
  List, [], ◌∷◌, ◌++◌, length, length-append, length-set, set, ltb, ◌==◌, ltb→lt, inl, inr,
  Bool-cases, some_eq, u64_max, u64,
}
use qwanto.ToolCache.{
  Session, reuse_context, ToolEntry, ToolCache, entry_of, change, expired, get_cached_tool,
  oldest_slot, cache_tool_result, fresh_entry, renew, place,
}

entry_of-change :
    (hash : ℕ) (f : ToolEntry → ToolEntry) (es : List ToolEntry) {e : ToolEntry}
    → ((x : ToolEntry) → (f x).key_hash ≡ x.key_hash)
    → entry_of hash es ≡ some e
    → entry_of hash (change hash f es) ≡ some (f e)
unfolding entry_of change
entry_of-change hash f [] k h = cc
entry_of-change hash f (x ∷ es) {e} k h = elim (Bool-cases (x.key_hash == hash)) [
  | inl here ↦ rw (here, change) (ground (arith, k x, ap f (some_eq (rw (here, entry_of) at h))))
  | inr other ↦
      rw (other, change)
        (rw (other, entry_of) (entry_of-change hash f es k (rw (other, entry_of) at h)))
]

entry_of-append :
    (hash : ℕ) (x : ToolEntry) (es : List ToolEntry)
    → x.key_hash ≡ hash
    → entry_of hash es ≡ none
    → entry_of hash (es ++ (x ∷ [])) ≡ some x
unfolding entry_of
entry_of-append hash x [] k h = ground arith
entry_of-append hash x (e ∷ es) k h = ground (arith, entry_of-append hash x es k)

entry_of-set :
    (hash : ℕ) (x : ToolEntry) (es : List ToolEntry) (i : ℕ)
    → x.key_hash ≡ hash
    → entry_of hash es ≡ none
    → i < length es
    → entry_of hash (set es i x) ≡ some x
unfolding entry_of
entry_of-set hash x [] i k h lt = elim lt [ ]
entry_of-set hash x (e ∷ es) zero k h lt = ground arith
entry_of-set hash x (e ∷ es) (suc i) k h lt = ground (arith, entry_of-set hash x es i k)

oldest_slot-lt :
    (es : List ToolEntry) (i oldest slot bound : ℕ)
    → slot < bound
    → i + length es ≤ bound
    → oldest_slot es i oldest slot < bound
unfolding oldest_slot
oldest_slot-lt [] i oldest slot bound h k = h
oldest_slot-lt (e ∷ es) i oldest slot bound h k = elim (Bool-cases (ltb e.lru_clock oldest)) [
  | inl older ↦
      rw (older, oldest_slot)
        (oldest_slot-lt es (i + 1) e.lru_clock i bound (omega arith) (omega arith))
  | inr newer ↦
      rw (newer, oldest_slot) (oldest_slot-lt es (i + 1) oldest slot bound h (omega arith))
]

length-change :
    (hash : ℕ) (f : ToolEntry → ToolEntry) (es : List ToolEntry)
    → length (change hash f es) ≡ length es
unfolding change
length-change hash f [] = refl
length-change hash f (e ∷ es) = ground (arith, length-change hash f es)

length-place :
    (cache : ToolCache) (o : Option ToolEntry) (fresh : ToolEntry)
    → length cache.entries ≤ cache.capacity
    → length (place cache o fresh) ≤ cache.capacity
unfolding place
length-place cache (some e) fresh h = omega (
  arith,
  length-change fresh.key_hash
      (renew fresh.result_data fresh.timestamp fresh.ttl_seconds fresh.lru_clock) cache.entries,
)
length-place cache none fresh h = elim (Bool-cases (ltb (length cache.entries) cache.capacity)) [
  | inl room ↦
      rw (room, place) (omega (arith, length-append cache.entries (fresh ∷ []), ltb→lt _ _ room))
  | inr full ↦
      rw (full, place)
        (omega (arith, length-set cache.entries (oldest_slot cache.entries 0 u64_max 0) fresh))
]

-- Storing a result never makes the cache larger than its capacity.
length-cache_tool_result :
    (cache : ToolCache) (hash : ℕ) (name args : Option (List ℕ)) (result : List ℕ)
    (ttl now wall : ℕ)
    → length cache.entries ≤ cache.capacity
    → let after = cache_tool_result cache hash name args result ttl now wall in
      (length after.entries ≤ after.capacity) × (after.capacity ≡ cache.capacity)
unfolding cache_tool_result
length-cache_tool_result cache hash name args result ttl now wall h =
    elim (Bool-cases (hash == 0)) [
      | inl zero_hash ↦ rw (zero_hash, cache_tool_result) (h, refl)
      | inr keyed ↦
          rw (keyed, cache_tool_result) (length-place cache (entry_of hash cache.entries) _ h, refl)
    ]

-- The entry that a stored result leaves under its hash.
abbrev Remembers : List ToolEntry → ToolEntry → Type 0
Remembers es fresh =
    (x : ToolEntry) × (entry_of fresh.key_hash es ≡ some x)
    × (x.result_data ≡ fresh.result_data)
    × (x.timestamp ≡ fresh.timestamp)
    × (x.ttl_seconds ≡ fresh.ttl_seconds)

place-Remembers :
    (cache : ToolCache) (o : Option ToolEntry) (fresh : ToolEntry)
    → entry_of fresh.key_hash cache.entries ≡ o
    → 0 < cache.capacity
    → length cache.entries ≤ cache.capacity
    → Remembers (place cache o fresh) fresh
unfolding place
place-Remembers cache (some e) fresh h pos le = (
  _,
  entry_of-change fresh.key_hash
      (renew fresh.result_data fresh.timestamp fresh.ttl_seconds fresh.lru_clock) cache.entries
      (λ x. refl) h,
  refl,
  refl,
  refl,
)
place-Remembers cache none fresh h pos le =
    elim (Bool-cases (ltb (length cache.entries) cache.capacity)) [
      | inl room ↦
          rw (room, place)
            (fresh, entry_of-append fresh.key_hash fresh cache.entries refl h, refl, refl, refl)
      | inr full ↦
          let below =
            oldest_slot-lt cache.entries 0 u64_max 0 (length cache.entries) (ground arith)
              (omega arith) in
          rw (full, place)
            (
              fresh,
              entry_of-set fresh.key_hash fresh cache.entries _ refl h below,
              refl,
              refl,
              refl,
            )
    ]

get_cached_tool-entry_of :
    (cache : ToolCache) (hash now : ℕ) (x : ToolEntry)
    → 0 < hash
    → entry_of hash cache.entries ≡ some x
    → expired x now ≡ false
    → (get_cached_tool cache hash now).0 ≡ some x.result_data
unfolding get_cached_tool
get_cached_tool-entry_of cache hash now x h e live = ground arith

live_until :
    (x : ToolEntry) (later : ℕ)
    → x.timestamp + x.ttl_seconds < 2 ^ 64
    → later ≤ x.timestamp + x.ttl_seconds
    → expired x later ≡ false
unfolding expired
live_until x later fits soon = ground arith

entries_of_stored :
    (cache : ToolCache) (hash : ℕ) (name args : Option (List ℕ)) (result : List ℕ)
    (ttl now wall : ℕ)
    → 0 < hash
    → 0 < now
    → 0 < ttl
    → (cache_tool_result cache hash name args result ttl now wall).entries
      ≡ place cache
          (entry_of hash cache.entries)
          (fresh_entry hash name args result now ttl (u64 (cache.current_lru_clock + 1)))
unfolding cache_tool_result
entries_of_stored cache hash name args result ttl now wall h n t = ground arith

-- In a cache of positive capacity with at most as many entries, a result stored under a hash other than 0, at a
-- time and with a time to live that are above 0 and whose sum is below 2^64, is what the next lookup under
-- its hash gives until that sum: whether its slot was that of an earlier result, a free one or an evicted one.
pub get_cached_tool-cache_tool_result :
    (cache : ToolCache) (hash : ℕ) (name args : Option (List ℕ)) (result : List ℕ)
    (ttl now wall later : ℕ)
    → 0 < hash
    → 0 < cache.capacity
    → length cache.entries ≤ cache.capacity
    → 0 < now
    → 0 < ttl
    → now + ttl < 2 ^ 64
    → later ≤ now + ttl
    → (get_cached_tool (cache_tool_result cache hash name args result ttl now wall) hash later).0
      ≡ some result
get_cached_tool-cache_tool_result cache hash name args result ttl now wall later hp cp le np tp fits
      soon =
    let fresh = fresh_entry hash name args result now ttl (u64 (cache.current_lru_clock + 1)) in
    let (x, there, same, at, for) =
      place-Remembers cache (entry_of hash cache.entries) fresh refl cp le in
    get_cached_tool-entry_of (cache_tool_result cache hash name args result ttl now wall) hash later
      x hp
      (ap (entry_of hash) (entries_of_stored cache hash name args result ttl now wall hp np tp)
        ∙ there)
      (live_until x later (omega (arith, at, for)) (omega (arith, at, for)))
    ∙ ap some same

-- A session only grows: what it held stays in front, the new tokens follow it, and it stays within its
-- array; or the call fails.
reuse_context_lem :
    (reallocates : Bool) (ctx : Session) (new_tokens : List ℕ) {after : Session}
    → reuse_context reallocates ctx new_tokens ≡ some after
    → length ctx.tokens ≤ ctx.capacity
    → (after.tokens ≡ ctx.tokens ++ new_tokens)
      × (length after.tokens ≤ after.capacity)
      × (ctx.capacity ≤ after.capacity)
      × (after.frozen_prefix_tokens ≡ ctx.frozen_prefix_tokens)
unfolding reuse_context
reuse_context_lem reallocates ctx new_tokens e h =
    ground (arith, length-append ctx.tokens new_tokens)
