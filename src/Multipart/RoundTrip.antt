-- ===== src/Multipart/RoundTrip.antt =====
-- A form that is sent in pieces of any size is read back whole.
use udesa_x_posts_api.Common.{
  ℕ, ◌≤◌, ◌≡◌, refl, ◌∙◌, arith, none, some, true, false, List, [], ◌∷◌, ◌++◌, length, leb,
  Bool-cases, inl, inr,
}
use udesa_x_posts_api.Common.Lists.{length-append}
use udesa_x_posts_api.Common.Action.{continue}
use udesa_x_posts_api.Multipart.{FormRules, FormParser, Callback, PostForm, max_content_bytes}
use udesa_x_posts_api.Multipart.Reader.{
  Reader, part_begin, headers_finished, keep_text, keep_part, part_end, callback, feed,
}
use udesa_x_posts_api.Multipart.Parts.{
  Part, joined, body_callbacks, part_callbacks, headers_read, field_of, is_file, is_text, file_of,
  with_part,
}
use udesa_x_posts_api.Multipart.Feeding.{
  in_headers, in_body, feed_headers, feed_file, feed_text, feed_other,
}

module _ (rules : FormRules) (P : FormParser) where
  -- What the limits of the form ask of a part.
  pub record IsAccepted (part : Part) : Type 0 where
    pub file_le : is_file rules P part ≡ true → length (joined part.body) ≤ rules.max_file_bytes
    pub text_le : is_text rules P part ≡ true → length (joined part.body) ≤ max_content_bytes
    pub text_decodes :
        is_text rules P part ≡ true
        → (content : List ℕ) × (P.decode (joined part.body) ≡ some content)

  -- A reader that is between two parts, with this form.
  abbrev pub IsBetween : PostForm → Reader → Type 0
  IsBetween form r = part_begin r ≡ in_headers form [] [] []

  -- What follows the headers of a part, and what it leaves.
  abbrev IsRead : Part → List Callback → PostForm → Type 0
  IsRead part rest form =
      (s : Reader) × ((feed rules P
            (Callback.headers_finished ∷ body_callbacks part.body (Callback.part_end ∷ rest))
            (in_headers form (headers_read part.headers []) [] [])
          ≡ feed rules P rest s)
        × IsBetween (with_part rules P form part) s)

  IsRead-file :
      (part : Part) (rest : List Callback) (form : PostForm)
      → is_file rules P part ≡ true
      → length (joined part.body) ≤ rules.max_file_bytes
      → length (with_part rules P form part).images ≤ rules.max_files
      → IsRead part rest form
  unfolding feed callback continue part_begin headers_finished part_end keep_part
  IsRead-file part rest form file within room =
      let free : leb rules.max_files (length form.images) ≡ false =
        ground (arith, length-append form.images (file_of rules P part ∷ []), rw file at room) in
      let headers = headers_read part.headers [] in
      (
        in_body (record form { images = form.images ++ (file_of rules P part ∷ []) }) headers
            (field_of rules P part) [] none (length (joined part.body)),
        (
          rw file (
              rw free (
                feed_file rules P part.body (Callback.part_end ∷ rest) form headers
                  (field_of rules P part) [] (joined part.body) 0 (length (joined part.body)) refl
                  (omega arith) within)),
          rw file refl,
        ),
      )

  IsRead-text :
      (part : Part) (rest : List Callback) (form : PostForm)
      → is_file rules P part ≡ false
      → is_text rules P part ≡ true
      → length (joined part.body) ≤ max_content_bytes
      → (content : List ℕ) → P.decode (joined part.body) ≡ some content
      → IsRead part rest form
  unfolding feed callback continue part_begin headers_finished part_end keep_part keep_text
  IsRead-text part rest form other text within content decodes =
      let headers = headers_read part.headers [] in
      (
        in_body (record form { content = content }) headers (field_of rules P part)
            (joined part.body) none (length (joined part.body)),
        (
          rw other (
              feed_text rules P part.body (Callback.part_end ∷ rest) form headers
                (field_of rules P part) [] (joined part.body) 0 (length (joined part.body)) text
                refl (omega arith) within
              ∙ rw text (rw decodes refl)),
          rw other (rw text (rw decodes refl)),
        ),
      )

  IsRead-other :
      (part : Part) (rest : List Callback) (form : PostForm)
      → is_file rules P part ≡ false
      → is_text rules P part ≡ false
      → IsRead part rest form
  unfolding feed callback continue part_begin headers_finished part_end keep_part
  IsRead-other part rest form other none_of =
      let headers = headers_read part.headers [] in
      (
        in_body form headers (field_of rules P part) [] none (length (joined part.body)),
        (
          rw other (
              feed_other rules P part.body (Callback.part_end ∷ rest) form headers
                (field_of rules P part) 0 (length (joined part.body)) none_of (omega arith)
              ∙ rw none_of refl),
          rw other (rw none_of refl),
        ),
      )

  IsRead-part :
      (part : Part) (rest : List Callback) (form : PostForm)
      → IsAccepted part
      → length (with_part rules P form part).images ≤ rules.max_files
      → IsRead part rest form
  IsRead-part part rest form accepted room = elim (Bool-cases (is_file rules P part)) [
    | inl file ↦ IsRead-file part rest form file (accepted.file_le file) room
    | inr other ↦ elim (Bool-cases (is_text rules P part)) [
      | inl text ↦
          let (content, decodes) = accepted.text_decodes text in
          IsRead-text part rest form other text (accepted.text_le text) content decodes
      | inr none_of ↦ IsRead-other part rest form other none_of
    ]
  ]

  pub feed_part :
      (part : Part) (rest : List Callback) (form : PostForm) (r : Reader)
      → IsBetween form r
      → IsAccepted part
      → length (with_part rules P form part).images ≤ rules.max_files
      → (s : Reader) × ((feed rules P (part_callbacks part rest) r ≡ feed rules P rest s)
          × IsBetween (with_part rules P form part) s)
  unfolding feed callback continue
  feed_part part rest form r between accepted room =
      let (s, (e, after)) = IsRead-part part rest form accepted room in
      (s, (rw between (feed_headers rules P part.headers _ form [] ∙ e), after))
