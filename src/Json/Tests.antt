-- ===== src/Json/Tests.antt =====
-- Runs of the JSON reader, and its theorems at concrete inputs.
use qwanto.Base.{
  ◌⊎◌, ℕ, ◌+◌, ◌-◌, ◌*◌, ◌≤◌, ◌≡◌, c_string, true, ◌&&◌, List, [], ◌∷◌, length, leb, if◌then◌else◌,
  some, arith, refl, codes,
}
use qwanto.Container.Open.{same_bytes}
use qwanto.Json.{
  Jval, j_null, j_bool, j_num, j_arr, j_obj, no_items, item, no_fields, field, got, over_read,
  skip_ws, json_get, get_field,
}
use qwanto.Json.Strings.{
  string_raw, raw, escape, unicode, code_point, low_half, strtoul16, signed_hex, unsigned_hex,
  digits, digit, puts, put, utf8,
}
use qwanto.Json.Parse.{
  json_parse, value, value_at, kind, object_body, array_body, fields_next, next, advance,
  after_colon,
}
use qwanto.Json.Document.{
  Document, plain, short, line_feed, IsDocument, Stops, object, last_member, more_members, array,
  last, more, num_text, bool_text, render, denotes, depth, text_of, bytes_of,
}
use qwanto.Json.Reads.{json_parse-render}
use qwanto.Json.Terminates.{json_parse_ends}

-- A number parser for natural numbers: the number that the digits make behind `n`.
unfoldable decimal : ℕ → List ℕ → ℕ × List ℕ
decimal n [] = (n, [])
decimal n (c ∷ p) =
    let rest = decimal (n * 10 + (c - 48)) p in if leb 48 c && leb c 57 then rest else (n, c ∷ p)

decimal-shorter : (n : ℕ) (p : List ℕ) → length (decimal n p).1 ≤ length p
unfolding decimal
decimal-shorter n [] = omega arith
decimal-shorter n (c ∷ p) = ground (arith, decimal-shorter (n * 10 + (c - 48)) p)

decimal-Stops : (n : ℕ) (rest : List ℕ) → Stops rest → decimal n rest ≡ (n, rest)
unfolding decimal
decimal-Stops n [] h = refl
decimal-Stops n (c ∷ p) h = ground arith

-- {"a" : [1, 22],"\n":true}
abbrev sample : Document ℕ
sample = object (
    more_members [] (plain b'a' ∷ []) (32 ∷ []) (32 ∷ [])
      (array (more [] (num_text 1 b'1' []) [] (last (32 ∷ []) (num_text 22 b'2' (b'2' ∷ [])) [])))
      [] (last_member [] (short line_feed ∷ []) [] [] (bool_text true) []))

sample_text : render sample ≡ codes "{\"a\" : [1, 22],\"\\n\":true}"
unfolding render text_of
sample_text = refl

sample-IsDocument : IsDocument (decimal 0) sample
unfolding IsDocument decimal bytes_of
sample-IsDocument = (
  tt,
  record { pieces = (refl, tt); fits = omega arith },
  (refl, tt),
  (refl, tt),
  (
    tt,
    (refl, λ rest h. decimal-Stops 1 rest h),
    tt,
    ((refl, tt), (refl, λ rest h. decimal-Stops 22 rest h), tt),
  ),
  tt,
  (tt, record { pieces = (tt, tt); fits = omega arith }, tt, tt, tt, tt),
)

json_parse-render_example :
    json_parse (decimal 0) (codes "{\"a\" : [1, 22],\"\\n\":true}")
    ≡ got (
        j_obj (
          field
            (97 ∷ [])
            (j_arr (item (j_num 1) (item (j_num 22) no_items)))
            (field (10 ∷ []) (j_bool true) no_fields)))
unfolding render text_of denotes bytes_of depth
json_parse-render_example =
    json_parse-render (decimal 0) [] sample [] tt sample-IsDocument tt (omega arith)

-- The end of a text inside an object, and an escape cut short.
json_parse_ends_example :
    ((v : Jval ℕ) × (json_parse (decimal 0) (codes "{\"a\":1,") ≡ got v))
    ⊎ (json_parse (decimal 0) (codes "{\"a\":1,") ≡ over_read)
json_parse_ends_example = json_parse_ends (decimal 0) (decimal-shorter 0) (codes "{\"a\":1,")

cut_object : json_parse (decimal 0) (codes "{\"a\":1,") ≡ over_read
unfolding json_parse value value_at kind object_body skip_ws fields_next next string_raw raw
    after_colon decimal put
cut_object = refl

cut_escape : json_parse (decimal 0) (codes "\"\\u12") ≡ over_read
unfolding json_parse value value_at kind skip_ws string_raw raw escape unicode
cut_escape = refl

cut_word : json_parse (decimal 0) (codes "[t") ≡ over_read
unfolding json_parse value value_at kind array_body skip_ws advance
cut_word = refl

-- A text that is no document, read as an object with one member.
unclosed :
    json_parse (decimal 0) (codes "{\"a\" 1 x") ≡ got (j_obj (field (97 ∷ []) (j_num 1) no_fields))
unfolding json_parse value value_at kind object_body skip_ws fields_next next string_raw raw
    after_colon decimal put
unclosed = refl

first_of_two :
    json_get {D = ℕ}
      (j_obj (field (97 ∷ []) (j_bool true) (field (97 ∷ []) j_null no_fields)))
      (97 ∷ [])
    ≡ some (j_bool true)
unfolding json_get get_field same_bytes c_string
first_of_two = refl

-- λ and a rocket, from a unit and from a pair.
unicode_test :
    string_raw (codes "\"\\u03bb \\uD83D\\uDE80\"")
    ≡ got (206 ∷ 187 ∷ 32 ∷ 240 ∷ 159 ∷ 154 ∷ 128 ∷ [], [])
unfolding string_raw raw escape unicode code_point low_half strtoul16 skip_ws signed_hex
    unsigned_hex digits digit puts put utf8
unicode_test = refl
