-- ===== src/Json/Steps.antt =====
-- One turn of the loops of `json_parse` over objects and arrays.
use qwanto.Base.{
  ℕ, suc, ◌+◌, ◌≤◌, ◌≡◌, some, List, [], ◌∷◌, ◌++◌, length, arith, ap, ◌∙◌, length-append,
  append_assoc,
}
use qwanto.Json.{Jval, Items, Fields, item, field, no_items, no_fields, got, ◌>>=◌, skip_ws}
use qwanto.Json.Parse.{
  Place, reading, after_colon, next, fields_next, items_next, value, fields, items,
}
use qwanto.Json.Document.{Piece, text_of, bytes_of, IsString, quoted, IsBlank}
use qwanto.Json.Quoted.{string_raw-quoted}
use qwanto.Json.Shapes.{skip_ws-blank}

-- One member, reassociated so that its parts come in the order of the reads.
pub member_text :
    (v k w y x e p : List ℕ)
    → (v ++ ((34 ∷ k ++ (34 ∷ [])) ++ (w ++ (b':' ∷ y ++ (x ++ e))))) ++ p
      ≡ v ++ (34 ∷ k ++ (34 ∷ (w ++ (b':' ∷ (y ++ (x ++ (e ++ p)))))))
member_text v k w y x e p = simp append_assoc

pub element_text : (v x e p : List ℕ) → (v ++ (x ++ e)) ++ p ≡ v ++ (x ++ (e ++ p))
element_text v x e p = simp append_assoc

pub length-parts : (v x e : List ℕ) → length (v ++ (x ++ e)) ≡ length v + (length x + length e)
length-parts v x e = omega (arith, length-append v (x ++ e), length-append x e)

pub length-member :
    (v : List ℕ) (k : List Piece) (w y x e : List ℕ)
    → length x + length e + 3 ≤ length (v ++ (quoted k ++ (w ++ (b':' ∷ y ++ (x ++ e)))))
length-member v k w y x e = omega (
  arith,
  length-parts v (quoted k) (w ++ (b':' ∷ y ++ (x ++ e))),
  length-append (text_of k) (34 ∷ []),
  length-append w (b':' ∷ y ++ (x ++ e)),
  length-parts y x e,
)

module _ {D : Type 0} (strtod : List ℕ → D × List ℕ) (n d : ℕ) where
  -- One turn of the loop of an array, on its last element and on another.
  pub items-last :
      (text w rest : List ℕ) (v : Jval D)
      → IsBlank w
      → value strtod n d text ≡ got (v, some (w ++ (b']' ∷ rest)))
      → items strtod (suc n) d text ≡ got (item v no_items, some rest)
  unfolding value items_next next skip_ws
  items-last text w rest v blank e =
      rw e (ap (items_next (items strtod n d) v) (skip_ws-blank w (b']' ∷ rest) blank))

  pub items-more :
      (text w others rest : List ℕ) (v : Jval D) (vs : Items D)
      → IsBlank w
      → value strtod n d text ≡ got (v, some (w ++ (b',' ∷ others)))
      → items strtod n d others ≡ got (vs, some rest)
      → items strtod (suc n) d text ≡ got (item v vs, some rest)
  unfolding value items_next next skip_ws
  items-more text w others rest v vs blank e ih = rw e (
      ap (items_next (items strtod n d) v) (skip_ws-blank w (b',' ∷ others) blank)
      ∙ ap (λ r. r >>= λ x. got (item v x.0, x.1)) ih)

  -- The name of a member, and the value behind the colon.
  pub fields-name :
      (v : List ℕ) (k : List Piece) (w text : List ℕ) (rest : Place) (x : Jval D)
      → IsBlank v
      → IsString k
      → IsBlank w
      → value strtod n d text ≡ got (x, rest)
      → fields strtod (suc n) d (v ++ (34 ∷ text_of k ++ (34 ∷ (w ++ (b':' ∷ text)))))
        ≡ reading rest λ p. fields_next (fields strtod n d) (bytes_of k) x (skip_ws p)
  unfolding value skip_ws after_colon
  fields-name v k w text rest x hv hk hw e = rw (
    skip_ws-blank v (34 ∷ text_of k ++ (34 ∷ (w ++ (b':' ∷ text)))) hv,
    string_raw-quoted k (w ++ (b':' ∷ text)) hk,
    skip_ws-blank w (b':' ∷ text) hw,
    e,
  )

  pub fields-last :
      (w rest key : List ℕ) (v : Jval D)
      → IsBlank w
      → fields_next (fields strtod n d) key v (skip_ws (w ++ (b'}' ∷ rest)))
        ≡ got (field key v no_fields, some rest)
  unfolding fields_next next skip_ws
  fields-last w rest key v blank =
      ap (fields_next (fields strtod n d) key v) (skip_ws-blank w (b'}' ∷ rest) blank)

  pub fields-more :
      (w others rest key : List ℕ) (v : Jval D) (vs : Fields D)
      → IsBlank w
      → fields strtod n d others ≡ got (vs, some rest)
      → fields_next (fields strtod n d) key v (skip_ws (w ++ (b',' ∷ others)))
        ≡ got (field key v vs, some rest)
  unfolding fields_next next skip_ws
  fields-more w others rest key v vs blank ih =
      ap (fields_next (fields strtod n d) key v) (skip_ws-blank w (b',' ∷ others) blank)
      ∙ ap (λ r. r >>= λ x. got (field key v x.0, x.1)) ih
