-- ===== src/Grammar.antt =====
-- The grammars of c/grammar.h: their rules, and the states of the walker that follows them.
pub mod Walk
mod Language
mod Normal
mod Bounds
mod Walker
mod Mask
mod Forced
mod Progress
pub mod Draft
pub mod Build
pub mod Lex
pub mod Parse
mod Built
mod Repeats
mod Lexed
mod Parsed
mod Accepted
mod WellFormed
mod Tests
use qwanto.Base.{ℕ, Bool, Option, List, [], ◌^◌, ◌<◌, ◌≤◌, length, get_or, get_elem?}

-- `GrCls`: the 256 bits of a set of bytes, in the bytes' order.
abbrev pub Class : Type 0
Class = List Bool

-- `GrSym`, by its tag `t`.
pub data Sym : Type 0 where
  cls : Class → Sym
  ref : ℕ → Sym

-- `GrRule`, each of its `GrAlt` the list of its symbols.
pub record Rule : Type 0 where
  pub name : List ℕ
  pub alts : List (List Sym)

-- `Grammar` without its error text.
pub record Grammar : Type 0 where
  pub rules : List Rule
  pub root : ℕ

-- `GrFrame`, each `int16_t` field as its 16 bits. The fields are written modulo 2^16; where one is 2^15 or
-- more the code has a negative index, which no frame of a grammar that is `IsNarrow` has.
pub record Frame : Type 0 where
  pub r : ℕ
  pub a : ℕ
  pub s : ℕ

-- `GrStack`, its top first.
abbrev pub Stack : Type 0
Stack = List Frame

-- `GrState` without its grammar.
pub record State : Type 0 where
  pub st : List Stack
  pub alive : Bool

-- `GR_MAX_RULES`
abbrev pub max_rules : ℕ
max_rules = 1024

-- `GR_MAX_STACKS`
abbrev pub max_stacks : ℕ
max_stacks = 64

-- `GR_MAX_DEPTH`
abbrev pub max_depth : ℕ
max_depth = 64

-- The alternates of a rule.
unfoldable pub alts_of : Grammar → ℕ → List (List Sym)
alts_of G r = (get_or G.rules r (record { name = []; alts = [] })).alts

-- `G->r[r].a[a]`
unfoldable pub alt_at : Grammar → ℕ → ℕ → List Sym
alt_at G r a = get_or (alts_of G r) a []

-- The symbol at a frame; `none` when its alternate is used up.
unfoldable pub sym_at : Grammar → Frame → Option Sym
sym_at G t = get_elem? (alt_at G t.r t.a) t.s

-- No position of the walker leaves the range of int16_t: the rules are within their array, and every rule has
-- fewer than 2^15 alternates, each of fewer than 2^15 symbols.
pub record IsNarrow (G : Grammar) : Type 0 where
  pub rules : length G.rules ≤ max_rules
  pub alternates : (r : ℕ) → length (alts_of G r) < 2 ^ 15
  pub symbols : (r a : ℕ) → length (alt_at G r a) < 2 ^ 15
