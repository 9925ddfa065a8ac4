-- ===== src/Lib.antt =====
-- Verification of the C runtime of Qwanto: the container loader, the paged KV cache, the runtime
-- options, the JSON reader and the index of safetensors, the grammars and their schemas, the tokenizer,
-- speculative decoding, the buffer pool, the hot store of experts and the tool cache.
--
-- Container models c/qwanto_native.c with the structs of c/qwanto_native.h. A `.qwn` file is a function
-- from offsets to bytes, and the little-endian structs are read from it at their offsets
-- (Container.Image). `qwn_open` is `open_model`: seven stages in the order of the code, each a
-- function from the loader's state to an outcome, and every failure keeps the state that the code
-- leaves (Container.Open, over the state of Container.Model). The system calls are values of the
-- record `System`, so that the theorems hold for whatever they answer; `Held` is what the process has
-- open, mapped and allocated. `qwn_validate_desc` and the payload sizes are in Container.Desc and
-- Container.Dtype, `qwn_find` and `qwn_tensor_at` in Container.Find, `qwn_plan_residency` in
-- Container.Residency, and `qwn_read`, `qwn_data` and the page advice in Container.Access.
--
-- Json models c/json.h: strings and escapes (Json.Strings), values and the loops of objects and arrays
-- (Json.Parse), and, apart from the code, the JSON documents that it is to read, with their text and value
-- (Json.Document). `strtod` is a parameter over a type of doubles. A scan that reads behind the NUL of its
-- text gives `over_read`; a place one behind the NUL that is not read is `none`.
--
-- PagedKv models c/qwn_paged_kv.c: the pool of physical blocks and the block tables of the requests in
-- PagedKv.Pool, and a pool with all its tables under any sequence of calls in PagedKv.Cache. The two
-- arenas are functions from indices to half floats, as bit patterns (PagedKv.Arena, with the conversions
-- in PagedKv.Half): `qwn_paged_kv_write` is `kv_write`, and the loops keep the order of the code. The two
-- attention heads are in PagedKv.Attention, over the record `Floats` of C's floating-point operations,
-- and the chunked prefill in PagedKv.Chunks. Where the code has a branch for AVX2, the other is modelled.
--
-- Config models c/qwn_runtime_config.c: the configuration with its defaults and names (Config), its
-- validation (Config.Valid) and the parse of the command line (Config.Parse). A text is the list of its
-- bytes, cut off where the code copies it into a field; strtol, strtoull and strtod are fields of the
-- record `Libc`; a failure carries which message is written, `silent` if none is. The two comparisons of the acceptance rate
-- are fields of `Libc` too, both false of a NaN.
--
-- Grammar models c/grammar.h: the GBNF parser (Grammar.Lex and Grammar.Parse, over the rules of
-- Grammar.Build) and the
-- walker, a pushdown automaton that follows a set of stacks (Grammar.Walk), with its use in c/glm.c by
-- `grammar_reset`, `gr_feed` and `grammar_draft` (Grammar.Draft). A text is its bytes before the NUL, a class
-- the list of its 256 bits, a stack the list of its frames with the top first. The independent
-- specification is the leftmost derivation of words from symbols (Grammar.Language). The `int16_t` fields of
-- a frame are written modulo 2^16; the theorems on the walker ask for a grammar with at most 1024 rules, fewer
-- than 2^15 alternates in a rule and fewer than 2^15 symbols in an alternate (`IsNarrow`), in which none
-- becomes negative. The allocations of the parser succeed.
--
-- Schema models c/schema_gbnf.h over the JSON reader: the texts of literals (Schema), and `schema_to_gbnf` with the
-- nodes below it (Schema.Compile). A call gives
-- the text that it appends with the terminal rules that it uses, or the first failure; the depth is a count of
-- the levels left. Its string literals meet the literals of Grammar.Parse in Schema.Literal.
--
-- Shards models c/st.h: what `st_init` takes from the headers of its files, through the JSON reader
-- (Shards), its hash table and `st_find` (Shards.Table), and the extents that are read (Shards.Read). The
-- files are given in the order of their names, with their bytes; the cast of a double to int64_t is a
-- parameter. A sum of int64_t that wraps is negative, as on a machine with two's complement.
--
-- Speculative models the greedy branch of `spec_mtp_generate` in c/qwn_speculative.c: drafts of the MTP head,
-- their verification by the target, the correction and the bonus token (Speculative), and the token ring
-- (Speculative.Ring), and the prefix cache (Speculative.Prefix). The decoder is a parameter, the record `Decoder` of its calls over a state of the
-- target's layers and one of the MTP head: a call of the head leaves the target's layers alone. The reference
-- is the target's own greedy decoding (Speculative.Greedy). The callback for the texts is left out.
--
-- BufferPool models c/buffer_pool.h: the operations of the pool, with `posix_memalign` as a parameter over the
-- state of the allocator, and threads that lease and release at the same time as a relation of steps
-- (BufferPool.Threads), in which a thread releases only a lease that it has (BufferPool.Threads.Alone ties the two). The entries are the list of those
-- below the count.
--
-- Tier models c/tier.h: the choice of the expert that replaces the coldest of the hot store, by heat
-- (`tier_pick_swap`) and by frequency and recency (`tier_pick_lfru`). The int indices are natural numbers.
--
-- Tokenizer models c/tok.h: the byte map and the UTF-8 reader (Tokenizer), the merges of `bpe_piece`
-- (Tokenizer.Pieces), the alternatives of the pattern (Tokenizer.Pattern), and `pretok_chunk`, `tok_encode`,
-- `tok_decode` and `tok_id_of` (Tokenizer.Codec), over the record `Tok` of the tables, in which a hash map is what its
-- lookup answers. The hash map itself is in Tokenizer.HashMap, and `tok_load_memory`, which fills the record from a
-- document that c/json.h has read, in Tokenizer.Load. A symbol, an offset with a length in the code, is its bytes.
-- Each write to an output is behind a test of the room, so that the output is the first part of what is written
-- without a bound.
--
-- ToolCache models the tool-result cache and the session context of c/qwanto_agentic.c. The entries are
-- the list of the occupied slots, and a lookup gives the result beside the cache that it leaves.
--
-- Numbers: a uint64_t or size_t is a native number, with the wrap round 2^64 written out wherever the
-- code can wrap (`u64`); the indices into the arenas are written without one. An int of the paged cache
-- is a number without a bound: its token and block counts stay far below 2^31. A NULL argument, which
-- each function refuses at once, has no counterpart.
--
-- Fuel: the binary search takes the number of entries, since each round makes the range that is left
-- shorter. The loops of the grammar parser take the length of the text and two more, since each turn reads a
-- byte at least, and the loop of `spec_mtp_generate` the number of tokens asked for, since each turn emits
-- one at least. The loops of c/tok.h take the length of the text, since
-- each turn reads a byte at least, and that of the merges the number of symbols, since each merge makes one less.
-- The loops of the hash tables of c/st.h and c/tok.h take their
-- capacity, and the JSON reader twice the length of the text and one. `gr__normalize` recurs on what is left of its depth, as the code does. Every other loop
-- recurs on its data or on a count of rounds.
--
-- qsort is modelled by insertion sort: placement_cmp orders the placements of different tensors
-- strictly and totally, so that the sorted order is unique.
--
-- Not modelled: the timings of the loader, the Windows branches, the floating-point kernels, the GPU
-- back ends and the command-line programs.
pub mod Base
pub mod BufferPool
pub mod Config
pub mod Container
pub mod Grammar
pub mod Json
pub mod PagedKv
pub mod Schema
pub mod Shards
pub mod Speculative
pub mod Tier
pub mod Tokenizer
pub mod ToolCache
