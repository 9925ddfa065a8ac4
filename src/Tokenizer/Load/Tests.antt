-- ===== src/Tokenizer/Load/Tests.antt =====
-- Runs of the hash map and of the loading of the tokenizer, and their theorems at concrete documents.
use qwanto.Base.{
  String, ℕ, zero, suc, ◌+◌, ◌<◌, ◌≤◌, ◌≡◌, ◌≢◌, Bool, true, false, ◌&&◌, none, some, List, [], ◌∷◌,
  All, leb, ◌==◌, codes, arith, refl, ap, ℕ_discrete, c_string,
}
use mathlib.Core.List.{Memᴰ}
use mathlib.Core.List.Memᴰ.{head, tail}
use qwanto.Container.Open.{same_bytes}
use qwanto.Json.{
  Jval, j_num, j_str, j_arr, j_obj, no_items, item, no_fields, field, json_get, get_field,
}
use qwanto.Tokenizer.{Tok, spelled}
use qwanto.Tokenizer.Merges.{IsTok}
use qwanto.Tokenizer.HashMap.{HMap, tk_fnv, tk_fnv_from, hm_get, map_of}
use qwanto.Tokenizer.HashMap.Filled.{last_value, map_of-last_value}
use qwanto.Tokenizer.Load.{
  Source, vocab_of, merges_of, added_token, added_of, added_tokens, source_parts, source_of,
  insert_sp, sort_sp, strings, write_ids, max_id, build_tables,
}
use qwanto.Tokenizer.Load.Tables.{Distinct, ids}
use qwanto.Tokenizer.Load.Loaded.{IsSource, build_tables-IsTok}

-- The number of a word of four bytes enters the hash at once.
hash_test : tk_fnv (codes "abcd") ≡ tk_fnv_from 1469598103934665603 (codes "abcd")
unfolding tk_fnv
hash_test = refl

abbrev doubled : List (List ℕ × ℕ)
doubled = (codes "a", 1) ∷ (codes "abcde", 2) ∷ (codes "a", 3) ∷ []

last_value_test : last_value doubled (codes "a") ≡ some 3
unfolding last_value same_bytes
last_value_test = refl

map_of-last_value_example :
    (m : HMap) × (map_of doubled ≡ some m)
    × ((q : List ℕ) → hm_get m q ≡ some (last_value doubled q))
map_of-last_value_example = map_of-last_value doubled

-- A document with one token, one merge and two added tokens.
abbrev text_of : String → Jval ℕ
text_of s = j_str (codes s)

abbrev token : String → ℕ → Jval ℕ
token s id = j_obj (field (codes "id") (j_num id) (field (codes "content") (text_of s) no_fields))

abbrev small_document : Jval ℕ
small_document = j_obj (
    field (codes "added_tokens") (j_arr (item (token "<s>" 1) (item (token "<eos>" 2) no_items))) (
      field (codes "model")
        (j_obj (
          field (codes "vocab") (j_obj (field (codes "ab") (j_num 0) no_fields)) (
            field (codes "merges")
              (j_arr (item (j_arr (item (text_of "a") (item (text_of "b") no_items))) no_items))
              no_fields)))
        no_fields))

abbrev small_source : Source
small_source = record {
  vocab = (codes "ab", 0) ∷ [];
  merges = (codes "a", codes "b") ∷ [];
  added = (codes "<s>", 1) ∷ (codes "<eos>", 2) ∷ [];
}

source_test : source_of some small_document ≡ some small_source
unfolding source_of source_parts vocab_of merges_of added_tokens added_of added_token json_get
    get_field same_bytes c_string
source_test = refl

-- Merges as strings are not taken.
string_merges_test : merges_of {D = ℕ} some (item (text_of "a b") no_items) ≡ none
unfolding merges_of
string_merges_test = refl

sorted_test : sort_sp small_source.added ≡ (codes "<eos>", 2) ∷ (codes "<s>", 1) ∷ []
unfolding sort_sp insert_sp
sorted_test = refl

strings_test :
    strings small_source
    ≡ some (codes "ab", false) ∷ some (codes "<s>", true) ∷ some (codes "<eos>", true) ∷ []
unfolding strings write_ids max_id
strings_test = refl

-- The tokens of `k` bytes from `b` on.
unfoldable byte_tokens : ℕ → ℕ → List (List ℕ × ℕ)
byte_tokens zero b = []
byte_tokens (suc k) b = (spelled (b ∷ []), b) ∷ byte_tokens k (b + 1)

byte_tokens-Memᴰ : (k b c : ℕ) → b ≤ c → c < b + k → Memᴰ (spelled (c ∷ []), c) (byte_tokens k b)
unfolding byte_tokens
byte_tokens-Memᴰ zero b c le lt = absurd (omega (arith, le, lt))
byte_tokens-Memᴰ (suc k) b c le lt = elim (ℕ_discrete c b) [
  | yes e ↦ head (ap (λ z. (spelled (z ∷ []), z)) e)
  | no d ↦ tail (byte_tokens-Memᴰ k (b + 1) c (omega (arith, le, d)) (omega (arith, lt)))
]

byte_ids_differ : (k b x : ℕ) → x < b → All (λ y. x ≢ y) (ids (byte_tokens k b))
unfolding byte_tokens
byte_ids_differ zero b x h = tt
byte_ids_differ (suc k) b x h =
    ((λ e. absurd (omega (arith, e, h))), byte_ids_differ k (b + 1) x (omega (arith, h)))

byte_tokens-Distinct : (k b : ℕ) → Distinct (ids (byte_tokens k b))
unfolding byte_tokens Distinct
byte_tokens-Distinct zero b = tt
byte_tokens-Distinct (suc k) b =
    (byte_ids_differ k (b + 1) b (omega arith), byte_tokens-Distinct k (b + 1))

byte_ids_apart :
    (k b n : ℕ) → b + k ≤ n → All (λ x. All (λ y. x ≢ y) (n ∷ [])) (ids (byte_tokens k b))
unfolding byte_tokens
byte_ids_apart zero b n h = tt
byte_ids_apart (suc k) b n h =
    (((λ e. absurd (omega (arith, e, h))), tt), byte_ids_apart k (b + 1) n (omega (arith, h)))

-- All bytes, the pair ab with the id 300, and <s> with the id 301.
abbrev whole_source : Source
whole_source = record {
  vocab = (codes "ab", 300) ∷ byte_tokens 256 0;
  merges = (codes "a", codes "b") ∷ [];
  added = (codes "<s>", 301) ∷ [];
}

byte_ids_above : (k b x : ℕ) → b + k ≤ x → All (λ y. x ≢ y) (ids (byte_tokens k b))
unfolding byte_tokens
byte_ids_above zero b x h = tt
byte_ids_above (suc k) b x h =
    ((λ e. absurd (omega (arith, e, h))), byte_ids_above k (b + 1) x (omega (arith, h)))

whole_source-IsSource : IsSource whole_source
unfolding Distinct max_id byte_tokens
whole_source-IsSource = record {
  bytes = λ b h. (b, tail (byte_tokens-Memᴰ 256 0 b (omega arith) (omega (arith, h))));
  made = ((300, head refl), tt);
  plain = ((((λ e. absurd (omega (arith, e))), tt), ((λ e. absurd (omega (arith, e))), tt)), tt);
  apart = record {
    vocab = (byte_ids_above 256 0 300 (omega arith), byte_tokens-Distinct 256 0);
    added = (tt, tt);
    both = (((λ e. absurd (omega (arith, e))), tt), byte_ids_apart 256 0 301 (omega arith));
  };
  ids = ground arith;
  entries = ground arith;
  pairs = ground arith;
}

abbrev letter_test : ℕ → Bool
letter_test c = leb b'a' c && leb c b'z'

build_tables-IsTok_example :
    (T : Tok) × (build_tables letter_test (λ c. false) (λ c. c == 32) whole_source ≡ some T)
    × IsTok T
build_tables-IsTok_example =
    build_tables-IsTok letter_test (λ c. false) (λ c. c == 32) whole_source whole_source-IsSource
