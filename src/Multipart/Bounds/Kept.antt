-- ===== src/Multipart/Bounds/Kept.antt =====
-- Each call of the parser, and a whole run of them, keeps the limits of the form.
use udesa_x_posts_api.Common.{
  ℕ, ◌+◌, ◌≤◌, ◌≡◌, refl, arith, Option, none, some, false, List, [], ◌∷◌, ◌++◌, length, Bool-cases,
  inl, inr, ltb, leb,
}
use udesa_x_posts_api.Common.Lists.{All, length-append}
use udesa_x_posts_api.Images.{Bytes, TempFile, IncomingImage}
use udesa_x_posts_api.Multipart.{
  FormRules, FormParser, Callback, max_content_bytes, get, name_option, disposition_header,
}
use udesa_x_posts_api.Multipart.Reader.{
  Reader, is_field, header_field, header_value, header_end, headers_finished, write_file,
  write_text, keep_chunk, keep_part, part_data, keep_text, part_end, callback, feed,
}
use udesa_x_posts_api.Multipart.Bounds.{
  IsBounded, IsRoomFor, sized-IsBounded, part_begin-IsBounded, kept-IsBounded, same_room, continued,
}

within_limit :
    (joined old new size limit : ℕ)
    → joined ≡ old + new
    → old ≤ size
    → ltb limit (size + new) ≡ false
    → joined ≤ limit
within_limit joined old new size limit e h k = ground arith

All-snoc :
    {A : Type 0} (Q : A → Type 0) (xs : List A) (x : A) → All Q xs → Q x → All Q (xs ++ (x ∷ []))
All-snoc Q [] x h k = (k, tt)
All-snoc Q (y ∷ ys) x h k = (h.0, All-snoc Q ys x h.1 k)

module _ (rules : FormRules) (P : FormParser) where
  headers_finished-IsBounded :
      (r : Reader) → IsBounded rules r → IsBounded rules (headers_finished rules P r).1
  unfolding headers_finished
  headers_finished-IsBounded r v =
      let field = get name_option (P.options (get disposition_header r.headers)) in
      let named = kept-IsBounded rules r (record r { field = field }) v refl refl refl refl in
      elim (Bool-cases (is_field field (some rules.files_field))) [
        | inl file ↦ elim (Bool-cases (leb rules.max_files (length r.form.images))) [
          | inl full ↦ rw file (rw full named)
          | inr room ↦ rw file (
              rw room (record {
                images_le = v.images_le;
                each_le = v.each_le;
                text_within = v.text_within;
                text_le = v.text_le;
                file_le = (ground arith, (omega arith, omega arith));
              }))
        ]
        | inr other ↦ rw other named
      ]

  write_file-IsBounded :
      (file : TempFile) (chunk : Bytes) (r : Reader)
      → IsBounded rules r
      → r.file ≡ some file
      → IsBounded rules
          (write_file rules P file chunk (record r { size = r.size + length chunk })).1
  unfolding write_file
  write_file-IsBounded file chunk r v e =
      let sized = sized-IsBounded rules r (length chunk) v in
      elim (Bool-cases (ltb rules.max_file_bytes (r.size + length chunk))) [
        | inl over ↦ rw over sized
        | inr within ↦
            let (room, (a, b)) : IsRoomFor rules r (some file) = rw e at v.file_le in
            rw within (record {
              images_le = v.images_le;
              each_le = v.each_le;
              text_within = sized.text_within;
              text_le = v.text_le;
              file_le = (
                room,
                (
                  omega (arith, a, length-append file.bytes chunk),
                  within_limit _ _ (length chunk) r.size _ (length-append file.bytes chunk) a
                      within,
                ),
              );
            })
      ]

  write_text-IsBounded :
      (chunk : Bytes) (r : Reader)
      → IsBounded rules r
      → IsBounded rules (write_text rules P chunk (record r { size = r.size + length chunk })).1
  unfolding write_text
  write_text-IsBounded chunk r v =
      let sized = sized-IsBounded rules r (length chunk) v in
      elim (Bool-cases (ltb max_content_bytes (r.size + length chunk))) [
        | inl over ↦ rw over sized
        | inr within ↦ rw within (record {
          images_le = v.images_le;
          each_le = v.each_le;
          text_within = omega (arith, v.text_within, length-append r.text chunk);
          text_le =
              within_limit _ _ (length chunk) r.size _ (length-append r.text chunk) v.text_within
                within;
          file_le = sized.file_le;
        })
      ]

  keep_chunk-IsBounded :
      (file : Option TempFile) (chunk : Bytes) (r : Reader)
      → IsBounded rules r
      → r.file ≡ file
      → IsBounded rules
          (keep_chunk rules P file chunk (record r { size = r.size + length chunk })).1
  unfolding keep_chunk
  keep_chunk-IsBounded (some file) chunk r v e = write_file-IsBounded file chunk r v e
  keep_chunk-IsBounded none chunk r v e = elim (Bool-cases (is_field r.field rules.text_field)) [
    | inl text ↦ rw text (write_text-IsBounded chunk r v)
    | inr other ↦ rw other (sized-IsBounded rules r (length chunk) v)
  ]

  keep_text-IsBounded :
      (decoded : Option (List ℕ)) (r : Reader)
      → IsBounded rules r
      → IsBounded rules (keep_text rules P decoded r).1
  unfolding keep_text
  keep_text-IsBounded none r v = v
  keep_text-IsBounded (some content) r v = record {
    images_le = v.images_le;
    each_le = v.each_le;
    text_within = v.text_within;
    text_le = v.text_le;
    file_le =
        same_room rules r (record r { form = record r.form { content = content } }) r.file refl refl
          v.file_le;
  }

  keep_part-IsBounded :
      (file : Option TempFile) (r : Reader)
      → IsBounded rules r
      → r.file ≡ file
      → IsBounded rules (keep_part rules P file r).1
  unfolding keep_part
  keep_part-IsBounded (some file) r v e =
      let image : IncomingImage = record { file = file; size = r.size } in
      let (room, (a, b)) : IsRoomFor rules r (some file) = rw e at v.file_le in
      record {
        images_le = omega (arith, room, length-append r.form.images (image ∷ []));
        each_le = All-snoc _ r.form.images image v.each_le b;
        text_within = v.text_within;
        text_le = v.text_le;
        file_le = tt;
      }
  keep_part-IsBounded none r v e = elim (Bool-cases (is_field r.field rules.text_field)) [
    | inl text ↦ rw text (keep_text-IsBounded (P.decode r.text) r v)
    | inr other ↦ rw other v
  ]

  callback-IsBounded :
      (c : Callback) (r : Reader) → IsBounded rules r → IsBounded rules (callback rules P c r).1
  unfolding callback header_field header_value header_end part_data part_end
  callback-IsBounded Callback.part_begin r v = part_begin-IsBounded rules r v
  callback-IsBounded (Callback.header_field chunk) r v =
      kept-IsBounded rules r _ v refl refl refl refl
  callback-IsBounded (Callback.header_value chunk) r v =
      kept-IsBounded rules r _ v refl refl refl refl
  callback-IsBounded Callback.header_end r v = kept-IsBounded rules r _ v refl refl refl refl
  callback-IsBounded Callback.headers_finished r v = headers_finished-IsBounded r v
  callback-IsBounded (Callback.part_data chunk) r v = keep_chunk-IsBounded r.file chunk r v refl
  callback-IsBounded Callback.part_end r v = keep_part-IsBounded r.file r v refl
  callback-IsBounded Callback.end_of_form r v = kept-IsBounded rules r _ v refl refl refl refl

  pub feed-IsBounded :
      (cs : List Callback) (r : Reader) → IsBounded rules r → IsBounded rules (feed rules P cs r).1
  unfolding feed
  feed-IsBounded [] r v = v
  feed-IsBounded (c ∷ cs) r v =
      continued rules (callback rules P c r).0 (λ _. feed rules P cs) (callback rules P c r).1
        (callback-IsBounded c r v) (λ s w a. feed-IsBounded cs s w)
