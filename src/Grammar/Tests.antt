-- ===== src/Grammar/Tests.antt =====
-- Runs of the grammar parser and walker, and uses of their theorems.
use qwanto.Base.{
  ℕ, zero, suc, ◌^◌, ◌<◌, length, true, false, List, [], ◌∷◌, ◌++◌, set, get_or, codes, ◌≡◌, ◌↔◌,
  refl, arith, c_string, subst,
}
use qwanto.Container.Open.{same_bytes}
use qwanto.Grammar.{Sym, cls, ref, Grammar, IsNarrow, State, alts_of, alt_at, sym_at}
use qwanto.Grammar.Walk.{
  state_init, accept, accepted, advance, takes, forced, force, first_bit, admissible, mask_of,
  or_bits, class_at, count_bits, rejected, started, branch, normalize, settle, set_add, holds,
  same_stack, same_frame,
}
use qwanto.Grammar.Language.{Matches, done, byte, rule, Reads}
use qwanto.Grammar.Bounds.{state_init-IsSettled}
use qwanto.Grammar.Walker.{IsDerivative, accept-IsDerivative, state_init-Reads}
use qwanto.Grammar.Mask.{admissible_complete}
use qwanto.Grammar.Forced.{forced-prefix}
use qwanto.Grammar.Progress.{IsDefined, admissible-accept}
use qwanto.Grammar.Draft.{
  Drafter, grammar_reset, gr_feed, feed_bytes, feed_byte, resync, grammar_draft,
}
use qwanto.Grammar.Draft.Tracking.{Tracks, InStep, start-Tracks, consumed-Tracks}
use qwanto.Grammar.Draft.Feed.{gr_feed-InStep, grammar_draft-prefix}
use qwanto.Grammar.Build.{
  ok, error, unterminated_literal, never_defined, rule_named, find_rule, add_rule, rule_at, alt_new,
  alt_of, anon, decimal, postfix, push, repeat_rule, set_alt, set_alts,
}
use qwanto.Grammar.Built.{Ends}
use qwanto.Grammar.Parse.{
  gr_parse, definitions, definition, after_define, alternates, item, with_postfix, find_root,
  group_item, named_item,
}
use qwanto.Grammar.Lex.{
  empty_class, ws, identifier, idch, literal, char, class_bits, class_of, set_between, set_range,
  upper,
}
use qwanto.Grammar.WellFormed.{IsWellFormed, IsWellFormed-IsDefined, gr_parse-Ends}

-- A class of one byte.
abbrev only : ℕ → Sym
only b = cls (set empty_class b true)

-- `root ::= "a" x "d"` with `x ::= "b" | "c"`.
abbrev small : Grammar
small = record {
  rules =
      record { name = codes "root"; alts = (only b'a' ∷ ref 1 ∷ only b'd' ∷ []) ∷ [] }
      ∷ record { name = codes "x"; alts = (only b'b' ∷ []) ∷ (only b'c' ∷ []) ∷ [] }
      ∷ [];
  root = 0;
}

small-IsNarrow : IsNarrow small
unfolding alts_of alt_at
small-IsNarrow = record {
  rules = omega arith;
  alternates = λ r. few_alternates r;
  symbols = λ r a. few_symbols r a;
}
  where
    few_alternates : (r : ℕ) → length (alts_of small r) < 2 ^ 15
    few_alternates zero = omega arith
    few_alternates (suc zero) = omega arith
    few_alternates (suc (suc r)) = omega arith

    few_symbols : (r a : ℕ) → length (alt_at small r a) < 2 ^ 15
    few_symbols zero zero = omega arith
    few_symbols zero (suc a) = omega arith
    few_symbols (suc zero) zero = omega arith
    few_symbols (suc zero) (suc zero) = omega arith
    few_symbols (suc zero) (suc (suc a)) = omega arith
    few_symbols (suc (suc r)) a = omega arith

abbrev small_text : List ℕ
small_text = codes "root ::= \"a\" x \"d\"\nx ::= \"b\" | \"c\""

parse_small : gr_parse small_text ≡ ok small
unfolding gr_parse definitions c_string ws definition identifier idch after_define rule_named
    find_rule add_rule rule_at alternates item literal char with_postfix same_bytes alt_new alt_of
    anon decimal postfix push repeat_rule set_alt set_alts class_bits class_of find_root group_item
    named_item set_between set_range upper
parse_small = refl

-- The at_start state, and the one after `a`.
abbrev at_start : State
at_start = state_init small

abbrev after_a : State
after_a = (accept small at_start b'a').1

forced_start : forced small at_start 511 ≡ codes "a"
unfolding state_init started branch alts_of normalize settle sym_at alt_at set_add holds accept
    accepted advance takes same_stack same_frame admissible mask_of or_bits class_at count_bits
    first_bit forced force
forced_start = refl

after_a_count : (admissible small after_a).0 ≡ 2
unfolding state_init started branch alts_of normalize settle sym_at alt_at set_add holds accept
    accepted advance takes same_stack same_frame admissible mask_of or_bits class_at count_bits
    first_bit forced force
after_a_count = refl

refuses_b : accept small at_start b'b' ≡ (rejected, at_start)
unfolding state_init started branch alts_of normalize settle sym_at alt_at set_add holds accept
    accepted advance takes same_stack same_frame
refuses_b = refl

-- `gr_parse` reports what is wrong.
unclosed : gr_parse (codes "root ::= \"a") ≡ error unterminated_literal
unfolding gr_parse definitions c_string ws definition identifier idch after_define rule_named
    find_rule add_rule rule_at alternates item literal char with_postfix same_bytes alt_new alt_of
    anon decimal postfix push repeat_rule set_alt set_alts class_bits class_of find_root group_item
    named_item set_between set_range upper
unclosed = refl

undefined_rule : gr_parse (codes "root ::= y") ≡ error (never_defined (codes "y"))
unfolding gr_parse definitions c_string ws definition identifier idch after_define rule_named
    find_rule add_rule rule_at alternates item literal char with_postfix same_bytes alt_new alt_of
    anon decimal postfix push repeat_rule set_alt set_alts class_bits class_of find_root group_item
    named_item set_between set_range upper
undefined_rule = refl

-- The derivation of `abd`.
abd : Matches small (ref 0 ∷ []) (codes "abd")
unfolding alts_of alt_at
abd = rule 0 0 [] (codes "abd") (omega arith) (
    byte _ b'a' _ _ refl
      (rule 1 0 _ (codes "bd") (omega arith) (byte _ b'b' _ _ refl (byte _ b'd' _ _ refl done))))

start_live : (state_init small).alive ≡ true
unfolding state_init started branch alts_of normalize settle sym_at alt_at set_add holds
start_live = refl

start-Reads : Reads small at_start.st (codes "abd")
start-Reads = (state_init-Reads small small-IsNarrow (codes "abd") start_live).1 abd

state_init-Reads_example :
    Reads small at_start.st (codes "abd") ↔ Matches small (ref 0 ∷ []) (codes "abd")
state_init-Reads_example = state_init-Reads small small-IsNarrow (codes "abd") start_live

accept-IsDerivative_example :
    IsDerivative small at_start b'a' (codes "bd") (accept small at_start b'a')
accept-IsDerivative_example =
    accept-IsDerivative small small-IsNarrow (codes "bd") at_start b'a' (state_init-IsSettled small)

forced-prefix_example : (v : List ℕ) × (codes "abd" ≡ forced small at_start 511 ++ v)
forced-prefix_example =
    forced-prefix small small-IsNarrow at_start 511 (codes "abd") (state_init-IsSettled small)
      start-Reads

admissible_complete_example : get_or (admissible small at_start).1 b'a' false ≡ true
admissible_complete_example =
    admissible_complete small small-IsNarrow at_start b'a' (codes "bd") (state_init-IsSettled small)
      start-Reads

small-IsDefined : IsDefined small
small-IsDefined =
    IsWellFormed-IsDefined small (subst (Ends IsWellFormed) parse_small (gr_parse-Ends small_text))

a_in_mask : get_or (admissible small at_start).1 b'a' false ≡ true
unfolding state_init started branch alts_of normalize settle sym_at alt_at set_add holds accept
    accepted advance takes same_stack same_frame admissible mask_of or_bits class_at count_bits
    first_bit forced force
a_in_mask = refl

admissible-accept_example : ¬ ((accept small at_start b'a').0 ≡ rejected)
admissible-accept_example =
    admissible-accept small small-IsNarrow small-IsDefined at_start b'a' start_live a_in_mask

gr_parse-Ends_example : Ends IsWellFormed (gr_parse small_text)
gr_parse-Ends_example = gr_parse-Ends small_text

-- A walker that is on, before anything has been written.
abbrev drafter : Drafter
drafter = record { gst = at_start; on = true; armed = false; prop = 0; acc = 0 }

fed_on : (gr_feed small drafter (codes "xa")).on ≡ true
unfolding state_init started branch alts_of normalize settle sym_at alt_at set_add holds accept
    accepted advance takes same_stack same_frame admissible mask_of or_bits class_at count_bits
    first_bit forced force gr_feed feed_bytes feed_byte resync grammar_reset grammar_draft
fed_on = refl

drafter-InStep : InStep small [] drafter
drafter-InStep = ([], start-Tracks small small-IsNarrow [] drafter)

gr_feed-InStep_example : InStep small (codes "xa") (gr_feed small drafter (codes "xa"))
gr_feed-InStep_example =
    gr_feed-InStep small small-IsNarrow [] drafter (codes "xa") drafter-InStep fed_on

-- It has read `a` and `b`.
abbrev after_ab : State
after_ab = (accept small after_a b'b').1

abbrev armed : Drafter
armed = record drafter { gst = after_ab; armed = true }

armed-Tracks : Tracks small (codes "ab") (codes "ab") armed
unfolding state_init started branch alts_of normalize settle sym_at alt_at set_add holds accept
    accepted advance takes same_stack same_frame
armed-Tracks =
    consumed-Tracks small small-IsNarrow {f = record drafter { gst = after_a; armed = true }}
      after_ab b'b'
      (consumed-Tracks small small-IsNarrow {f = drafter} after_a b'a'
        (start-Tracks small small-IsNarrow [] drafter) refl)
      refl

drafted : (grammar_draft small armed 8).0 ≡ codes "d"
unfolding state_init started branch alts_of normalize settle sym_at alt_at set_add holds accept
    accepted advance takes same_stack same_frame admissible mask_of or_bits class_at count_bits
    first_bit forced force gr_feed feed_bytes feed_byte resync grammar_reset grammar_draft
drafted = refl

grammar_draft-prefix_example : (v : List ℕ) × (codes "d" ≡ (grammar_draft small armed 8).0 ++ v)
grammar_draft-prefix_example =
    grammar_draft-prefix small small-IsNarrow (codes "ab") (codes "ab") armed 8 (codes "d")
      armed-Tracks abd
