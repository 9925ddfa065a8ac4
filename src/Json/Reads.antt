-- ===== src/Json/Reads.antt =====
-- The documents that `json_parse` reads.
use qwanto.Base.{
  ℕ, zero, suc, ◌+◌, ◌*◌, ◌≤◌, ◌<◌, ◌≡◌, true, false, some, List, [], ◌∷◌, ◌++◌, length, arith,
  refl, ap, ◌∙◌, length-append, append_assoc, snoc_append,
}
use qwanto.Json.{Jval, Scan, got, ◌>>=◌}
use qwanto.Json.Parse.{Place, advance, kind, value_at, value, fields, items, json_parse}
use qwanto.Json.Document.{
  text_of, bytes_of, IsBlank, Document, Elements, Members, null_text, bool_text, num_text, str_text,
  empty_array, array, empty_object, object, last, more, last_member, more_members, render,
  render_elements, render_members, denotes, denotes_elements, denotes_members, depth,
  depth_elements, depth_members, Stops, IsDocument, AreElements, AreMembers,
}
use qwanto.Json.Shapes.{
  skip_ws-blank, Stops-blank, render_solid, elements_solid, members_solid, items-skip_ws,
  fields-skip_ws, value_at-bracket, value_at-brace, value_at-empty_array, value_at-empty_object,
  value_at-number, value_at-string,
}
use qwanto.Json.Steps.{
  member_text, element_text, length-parts, length-member, items-last, items-more, fields-name,
  fields-last, fields-more,
}

module _ {D : Type 0} (strtod : List ℕ → D × List ℕ) where
  abbrev at : ℕ → ℕ → List ℕ → Scan (Jval D × Place)
  at n d = value_at strtod (fields strtod n (d + 1)) (items strtod n (d + 1)) d

  -- The text of a document is read as its value, with the fuel `m` for its parts.
  ReadsAt : Document D → ℕ → List ℕ → ℕ → Type 0
  ReadsAt x d rest m = at m d (render x ++ rest) ≡ got (denotes x, some rest)

  value-start :
      (x : Document D) (n d : ℕ) (w rest : List ℕ)
      → IsBlank w
      → IsDocument strtod x
      → 2 * length (render x) < n
      → ((m : ℕ) → 2 * length (render x) ≤ m → ReadsAt x d rest m)
      → value strtod n d (w ++ (render x ++ rest)) ≡ got (denotes x, some rest)
  unfolding value ReadsAt
  value-start x zero d w rest hw h fuel reads = elim fuel [ ]
  value-start x (suc n) d w rest hw h fuel reads =
      ap (at n d) (skip_ws-blank w (render x ++ rest) hw ∙ (render_solid strtod x rest h).0)
      ∙ reads n (omega (arith, fuel))

  -- The calls that a text needs are at most twice its bytes.
  mutual
    unfolding render denotes depth IsDocument ReadsAt kind value_at advance

    value_at-Reads :
        (x : Document D) (n d : ℕ) (rest : List ℕ)
        → IsDocument strtod x
        → Stops rest
        → d + depth x ≤ 1024
        → 2 * length (render x) ≤ n
        → ReadsAt x d rest n
    value_at-Reads null_text n d rest h s low fuel = refl
    value_at-Reads (bool_text true) n d rest h s low fuel = refl
    value_at-Reads (bool_text false) n d rest h s low fuel = refl
    value_at-Reads (num_text x c t) n d rest h s low fuel =
        value_at-number strtod (fields strtod n (d + 1)) (items strtod n (d + 1)) d c t rest x h.0
          (h.1 rest s)
    value_at-Reads (str_text ps) n d rest h s low fuel =
        ap (λ z. at n d (34 ∷ z)) (snoc_append (text_of ps) rest 34)
        ∙ value_at-string strtod (fields strtod n (d + 1)) (items strtod n (d + 1)) d ps rest h
    value_at-Reads (empty_array w) n d rest h s low fuel =
        ap (λ z. at n d (b'[' ∷ z)) (snoc_append w rest b']')
        ∙ value_at-empty_array strtod (fields strtod n (d + 1)) (items strtod n (d + 1)) d w rest
            (omega arith) h
    value_at-Reads (empty_object w) n d rest h s low fuel =
        ap (λ z. at n d (b'{' ∷ z)) (snoc_append w rest b'}')
        ∙ value_at-empty_object strtod (fields strtod n (d + 1)) (items strtod n (d + 1)) d w rest
            (omega arith) h
    value_at-Reads (array es) n d rest h s low fuel =
        let few : 2 * length (render_elements es) + 1 < n =
          omega (arith, length-append (render_elements es) (b']' ∷ [])) in
        ap (λ z. at n d (b'[' ∷ z)) (snoc_append (render_elements es) rest b']')
        ∙ value_at-bracket strtod (fields strtod n (d + 1)) (items strtod n (d + 1)) d
            (render_elements es ++ (b']' ∷ rest)) _ (got (denotes_elements es, some rest))
            (omega arith) refl (elements_solid strtod es (b']' ∷ rest) h)
            (items-skip_ws strtod n (d + 1) _ ∙ items-Reads es n (d + 1) rest h (omega arith) few)
    value_at-Reads (object ms) n d rest h s low fuel =
        let few : 2 * length (render_members ms) + 1 < n =
          omega (arith, length-append (render_members ms) (b'}' ∷ [])) in
        ap (λ z. at n d (b'{' ∷ z)) (snoc_append (render_members ms) rest b'}')
        ∙ value_at-brace strtod (fields strtod n (d + 1)) (items strtod n (d + 1)) d
            (render_members ms ++ (b'}' ∷ rest)) _ (got (denotes_members ms, some rest))
            (omega arith) refl (members_solid strtod ms (b'}' ∷ rest) h)
            (fields-skip_ws strtod n (d + 1) _ ∙ fields-Reads ms n (d + 1) rest h (omega arith) few)

    items-Reads :
        (es : Elements D) (n d : ℕ) (rest : List ℕ)
        → AreElements strtod es
        → d + depth_elements es ≤ 1024
        → 2 * length (render_elements es) + 1 < n
        → items strtod n d (render_elements es ++ (b']' ∷ rest))
          ≡ got (denotes_elements es, some rest)
    items-Reads (last v x w) zero d rest h low fuel = elim fuel [ ]
    items-Reads (last v x w) (suc n) d rest h low fuel =
        let (hv, hx, hw) = h in
        ap (items strtod (suc n) d) (element_text v (render x) w (b']' ∷ rest))
        ∙ items-last strtod n d _ w rest (denotes x) hw (
            value-start x n d v _ hv hx (omega (arith, length-parts v (render x) w))
              (λ m. value_at-Reads x m d _ hx (Stops-blank w b']' rest hw refl) low))
    items-Reads (more v x w es) zero d rest h low fuel = elim fuel [ ]
    items-Reads (more v x w es) (suc n) d rest h low fuel =
        let (hv, hx, hw, hes) = h in
        let others = render_elements es ++ (b']' ∷ rest) in
        ap (items strtod (suc n) d) (
          element_text v (render x) (w ++ (b',' ∷ render_elements es)) (b']' ∷ rest)
          ∙ ap (λ z. v ++ (render x ++ z))
              (append_assoc w (b',' ∷ render_elements es) (b']' ∷ rest)))
        ∙ items-more strtod n d _ w others rest (denotes x) (denotes_elements es) hw
            (value-start x n d v _ hv hx
              (omega (arith, length-parts v (render x) (w ++ (b',' ∷ render_elements es))))
              (λ m. value_at-Reads x m d _ hx (Stops-blank w b',' others hw refl) (omega arith)))
            (items-Reads es n d rest hes (omega arith) (
              omega (
                arith,
                length-parts v (render x) (w ++ (b',' ∷ render_elements es)),
                length-append w (b',' ∷ render_elements es),
              )))

    fields-Reads :
        (ms : Members D) (n d : ℕ) (rest : List ℕ)
        → AreMembers strtod ms
        → d + depth_members ms ≤ 1024
        → 2 * length (render_members ms) + 1 < n
        → fields strtod n d (render_members ms ++ (b'}' ∷ rest))
          ≡ got (denotes_members ms, some rest)
    fields-Reads (last_member v k w y x z) zero d rest h low fuel = elim fuel [ ]
    fields-Reads (last_member v k w y x z) (suc n) d rest h low fuel =
        let (hv, hk, hw, hy, hx, hz) = h in
        ap (fields strtod (suc n) d) (member_text v (text_of k) w y (render x) z (b'}' ∷ rest))
        ∙ fields-name strtod n d v k w _ _ (denotes x) hv hk hw (
            value-start x n d y _ hy hx (omega (arith, length-member v k w y (render x) z))
              (λ m. value_at-Reads x m d _ hx (Stops-blank z b'}' rest hz refl) low))
        ∙ fields-last strtod n d z rest (bytes_of k) (denotes x) hz
    fields-Reads (more_members v k w y x z ms) zero d rest h low fuel = elim fuel [ ]
    fields-Reads (more_members v k w y x z ms) (suc n) d rest h low fuel =
        let (hv, hk, hw, hy, hx, hz, hms) = h in
        let others = render_members ms ++ (b'}' ∷ rest) in
        let behind = z ++ (b',' ∷ render_members ms) in
        ap (fields strtod (suc n) d) (
          member_text v (text_of k) w y (render x) behind (b'}' ∷ rest)
          ∙ ap (λ t. v ++ (34 ∷ text_of k ++ (34 ∷ (w ++ (b':' ∷ (y ++ (render x ++ t)))))))
              (append_assoc z (b',' ∷ render_members ms) (b'}' ∷ rest)))
        ∙ fields-name strtod n d v k w _ _ (denotes x) hv hk hw (
            value-start x n d y _ hy hx (omega (arith, length-member v k w y (render x) behind))
              (λ m. value_at-Reads x m d _ hx (Stops-blank z b',' others hz refl) (omega arith)))
        ∙ fields-more strtod n d z others rest (bytes_of k) (denotes x) (denotes_members ms) hz (
            fields-Reads ms n d rest hms (omega arith) (
              omega (
                arith,
                length-member v k w y (render x) behind,
                length-append z (b',' ∷ render_members ms),
              )))

  -- json_parse gives the value of every JSON document whose brackets nest at most 1024 deep and whose
  -- strings have at most 65535 bytes, with white space around it, and reads no byte behind its NUL.
  pub json_parse-render :
      (v : List ℕ) (x : Document D) (w : List ℕ)
      → IsBlank v
      → IsDocument strtod x
      → IsBlank w
      → depth x ≤ 1024
      → json_parse strtod (v ++ (render x ++ w)) ≡ got (denotes x)
  unfolding json_parse
  json_parse-render v x w hv hx hw low =
      ap (λ r. r >>= λ y. got y.0)
        (value-start x _ 0 v w hv hx (omega (arith, length-parts v (render x) w))
          (λ m. value_at-Reads x m 0 w hx (stops w hw) (omega arith)))
    where
      stops : (w : List ℕ) → IsBlank w → Stops w
      stops [] h = tt
      stops (c ∷ w) h = ground (arith, h.0)
