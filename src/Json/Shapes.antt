-- ===== src/Json/Shapes.antt =====
-- The shapes of a document's text, as the reader of c/json.h meets them.
use qwanto.Base.{
  ℕ, zero, suc, ◌+◌, ◌<◌, ◌≡◌, inl, inr, true, false, ◌||◌, ◌&&◌, some, List, [], ◌∷◌, ◌++◌, ltb,
  leb, ◌==◌, arith, refl, ap, ◌∙◌, append_assoc, Bool-cases,
}
use qwanto.Json.{
  Items, Fields, j_num, j_str, j_arr, j_obj, no_items, no_fields, Scan, got, ◌>>=◌, skip_ws,
  is_space, j_max_depth,
}
use qwanto.Json.Strings.{string_raw}
use qwanto.Json.Parse.{
  Place, reading, starts, after_colon, number, kind, fields_next, items_next, object_body,
  array_body, value_at, value, fields, items,
}
use qwanto.Json.Document.{
  Piece, text_of, bytes_of, IsString, IsBlank, Document, Elements, Members, null_text, bool_text,
  num_text, str_text, empty_array, array, empty_object, object, last, more, last_member,
  more_members, render, render_elements, render_members, Stops, IsDocument, AreElements, AreMembers,
}
use qwanto.Json.Quoted.{string_raw-quoted}

pub skip_ws-solid : (c : ℕ) (p : List ℕ) → is_space c ≡ false → skip_ws (c ∷ p) ≡ c ∷ p
unfolding skip_ws
skip_ws-solid c p h = rw (h, skip_ws)

pub skip_ws-blank : (w p : List ℕ) → IsBlank w → skip_ws (w ++ p) ≡ skip_ws p
unfolding skip_ws
skip_ws-blank [] p h = refl
skip_ws-blank (c ∷ w) p h =
    let space : is_space c ≡ true = ground (arith, h.0) in
    rw (space, skip_ws) (skip_ws-blank w p h.1)

skip_ws_idem : (p : List ℕ) → skip_ws (skip_ws p) ≡ skip_ws p
unfolding skip_ws
skip_ws_idem [] = refl
skip_ws_idem (c ∷ p) = elim (Bool-cases (is_space c)) [
  | inl e ↦ rw (e, skip_ws) (skip_ws_idem p)
  | inr e ↦ rw (e, skip_ws, e, skip_ws)
]

-- Behind a value there is white space, and then a byte at which it stops.
pub Stops-blank :
    (w : List ℕ) (c : ℕ) (p : List ℕ)
    → IsBlank w
    → ((c == b',') || (c == b']') || (c == b'}')) ≡ true
    → Stops (w ++ (c ∷ p))
Stops-blank [] c p h e = ground arith
Stops-blank (x ∷ w) c p h e = ground (arith, h.0)

module _ {D : Type 0} (strtod : List ℕ → D × List ℕ) where
  -- A document starts with a byte that is neither white space nor a closing bracket.
  pub render_solid :
      (x : Document D) (p : List ℕ)
      → IsDocument strtod x
      → (skip_ws (render x ++ p) ≡ render x ++ p) × (starts b']' (render x ++ p) ≡ false)
  unfolding render skip_ws IsDocument
  render_solid null_text p h = (refl, refl)
  render_solid (bool_text true) p h = (refl, refl)
  render_solid (bool_text false) p h = (refl, refl)
  render_solid (num_text x c t) p h =
      (skip_ws-solid c (t ++ p) (ground (arith, h.0)), ground (arith, h.0))
  render_solid (str_text ps) p h = (refl, refl)
  render_solid (empty_array w) p h = (refl, refl)
  render_solid (array es) p h = (refl, refl)
  render_solid (empty_object w) p h = (refl, refl)
  render_solid (object ms) p h = (refl, refl)

  -- The first element starts with no closing bracket.
  pub elements_solid :
      (es : Elements D) (p : List ℕ)
      → AreElements strtod es
      → starts b']' (skip_ws (render_elements es ++ p)) ≡ false
  unfolding render IsDocument
  elements_solid (last v x w) p h =
      ap (λ z. starts b']' (skip_ws z)) (append_assoc v (render x ++ w) p)
      ∙ ap (starts b']') (
          skip_ws-blank v _ h.0
          ∙ ap skip_ws (append_assoc (render x) w p)
          ∙ (render_solid x (w ++ p) h.1).0)
      ∙ (render_solid x (w ++ p) h.1).1
  elements_solid (more v x w es) p h =
      let others = w ++ (b',' ∷ render_elements es) in
      ap (λ z. starts b']' (skip_ws z)) (append_assoc v (render x ++ others) p)
      ∙ ap (starts b']') (
          skip_ws-blank v _ h.0
          ∙ ap skip_ws (append_assoc (render x) others p)
          ∙ (render_solid x (others ++ p) h.1).0)
      ∙ (render_solid x (others ++ p) h.1).1

  -- The first member starts with a quote.
  pub members_solid :
      (ms : Members D) (p : List ℕ)
      → AreMembers strtod ms
      → starts b'}' (skip_ws (render_members ms ++ p)) ≡ false
  unfolding render IsDocument skip_ws
  members_solid (last_member v k w y x z) p h =
      ap (λ t. starts b'}' (skip_ws t)) (append_assoc v _ p)
      ∙ ap (starts b'}') (skip_ws-blank v _ h.0)
  members_solid (more_members v k w y x z ms) p h =
      ap (λ t. starts b'}' (skip_ws t)) (append_assoc v _ p)
      ∙ ap (starts b'}') (skip_ws-blank v _ h.0)

  -- White space before a value, an array's elements or an object's members makes no difference.
  value-skip_ws : (n d : ℕ) (p : List ℕ) → value strtod n d (skip_ws p) ≡ value strtod n d p
  unfolding value
  value-skip_ws zero d p = refl
  value-skip_ws (suc n) d p =
      ap (value_at strtod (fields strtod n (d + 1)) (items strtod n (d + 1)) d) (skip_ws_idem p)

  pub items-skip_ws : (n d : ℕ) (p : List ℕ) → items strtod n d (skip_ws p) ≡ items strtod n d p
  unfolding value
  items-skip_ws zero d p = refl
  items-skip_ws (suc n) d p =
      ap (λ r. r >>= λ v. reading v.1 λ rest. items_next (items strtod n d) v.0 (skip_ws rest))
        (value-skip_ws n d p)

  pub fields-skip_ws : (n d : ℕ) (p : List ℕ) → fields strtod n d (skip_ws p) ≡ fields strtod n d p
  unfolding value
  fields-skip_ws zero d p = refl
  fields-skip_ws (suc n) d p =
      ap
        (λ q. string_raw q >>= λ key. value strtod n d (after_colon (skip_ws key.1)) >>= λ v.
          reading v.1 λ rest. fields_next (fields strtod n d) key.0 v.0 (skip_ws rest))
        (skip_ws_idem p)

  module _ (members : List ℕ → Scan (Fields D × Place))
      (elements : List ℕ → Scan (Items D × Place)) where
    -- A bracket below the greatest depth, with something behind it.
    pub value_at-bracket :
        (d : ℕ) (p q : List ℕ) (r : Scan (Items D × Place))
        → d < 1024
        → skip_ws p ≡ q
        → starts b']' q ≡ false
        → elements q ≡ r
        → value_at strtod members elements d (b'[' ∷ p) ≡ (r >>= λ x. got (j_arr x.0, x.1))
    unfolding value_at kind array_body
    value_at-bracket d p q r low e open_ read =
        let below : leb j_max_depth d ≡ false = ground arith in
        rw (below, value_at, e) (rw (open_, array_body, read))

    pub value_at-brace :
        (d : ℕ) (p q : List ℕ) (r : Scan (Fields D × Place))
        → d < 1024
        → skip_ws p ≡ q
        → starts b'}' q ≡ false
        → members q ≡ r
        → value_at strtod members elements d (b'{' ∷ p) ≡ (r >>= λ x. got (j_obj x.0, x.1))
    unfolding value_at kind object_body
    value_at-brace d p q r low e open_ read =
        let below : leb j_max_depth d ≡ false = ground arith in
        rw (below, value_at, e) (rw (open_, object_body, read))

    pub value_at-empty_array :
        (d : ℕ) (w rest : List ℕ)
        → d < 1024
        → IsBlank w
        → value_at strtod members elements d (b'[' ∷ w ++ (b']' ∷ rest))
          ≡ got (j_arr no_items, some rest)
    unfolding value_at kind array_body skip_ws
    value_at-empty_array d w rest low h =
        let below : leb j_max_depth d ≡ false = ground arith in
        rw (below, value_at) (ap (array_body elements) (skip_ws-blank w (b']' ∷ rest) h))

    pub value_at-empty_object :
        (d : ℕ) (w rest : List ℕ)
        → d < 1024
        → IsBlank w
        → value_at strtod members elements d (b'{' ∷ w ++ (b'}' ∷ rest))
          ≡ got (j_obj no_fields, some rest)
    unfolding value_at kind object_body skip_ws
    value_at-empty_object d w rest low h =
        let below : leb j_max_depth d ≡ false = ground arith in
        rw (below, value_at) (ap (object_body members) (skip_ws-blank w (b'}' ∷ rest) h))

    pub value_at-number :
        (d c : ℕ) (t rest : List ℕ) (x : D)
        → ((c == b'-') || ltb 47 c && ltb c 58) ≡ true
        → strtod (c ∷ t ++ rest) ≡ (x, rest)
        → value_at strtod members elements d (c ∷ t ++ rest) ≡ got (j_num x, some rest)
    unfolding value_at kind
    value_at-number d c t rest x h e =
        let numeric : kind (c ∷ t ++ rest) ≡ number = ground arith in
        rw (numeric, value_at) (ap (λ z. got (j_num z.0, some z.1)) e)

    pub value_at-string :
        (d : ℕ) (ps : List Piece) (rest : List ℕ)
        → IsString ps
        → value_at strtod members elements d (34 ∷ text_of ps ++ (34 ∷ rest))
          ≡ got (j_str (bytes_of ps), some rest)
    unfolding value_at kind
    value_at-string d ps rest s =
        ap (λ r. r >>= λ x. got (j_str x.0, some x.1)) (string_raw-quoted ps rest s)
