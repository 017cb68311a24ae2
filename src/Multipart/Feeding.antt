-- ===== src/Multipart/Feeding.antt =====
-- api/multipart.py: what the reader does with the pieces of a header and of a body.
use udesa_x_posts_api.Common.{
  ℕ, ◌+◌, ◌≤◌, ◌≡◌, refl, ◌∙◌, sym, arith, Option, none, some, true, false, List, [], ◌∷◌, ◌++◌,
  length, ltb,
}
use udesa_x_posts_api.Common.Lists.{length-append}
use udesa_x_posts_api.Common.Action.{continue}
use mathlib.Core.List.{append-nil, append_assoc}
use udesa_x_posts_api.Images.{Bytes, TempFile}
use udesa_x_posts_api.Multipart.{
  FormRules, FormParser, Callback, Headers, PostForm, lower, max_content_bytes,
}
use udesa_x_posts_api.Multipart.Reader.{
  Reader, new_reader, is_field, header_field, header_value, header_end, write_file, write_text,
  keep_chunk, part_data, callback, feed,
}
use udesa_x_posts_api.Multipart.Parts.{
  HeaderPieces, joined, name_callbacks, value_callbacks, body_callbacks, header_callbacks,
  headers_read,
}

-- The reader in the headers of a part.
abbrev pub in_headers : PostForm → Headers → Bytes → Bytes → Reader
in_headers form headers name value = record new_reader {
  form = form;
  headers = headers;
  header_name = name;
  header_value = value;
}

-- The reader in the body of a part.
abbrev pub in_body : PostForm → Headers → Option Bytes → Bytes → Option TempFile → ℕ → Reader
in_body form headers field text file size = record new_reader {
  form = form;
  headers = headers;
  field = field;
  text = text;
  file = file;
  size = size;
}

module _ (rules : FormRules) (P : FormParser) where
  pub feed_name :
      (pieces : List Bytes) (rest : List Callback) (form : PostForm) (headers : Headers)
      (name value : Bytes)
      → feed rules P (name_callbacks pieces rest) (in_headers form headers name value)
        ≡ feed rules P rest (in_headers form headers (name ++ joined pieces) value)
  unfolding feed callback continue header_field
  feed_name [] rest form headers name value = rw (append-nil name) refl
  feed_name (piece ∷ pieces) rest form headers name value =
      rw (feed_name pieces rest form headers (name ++ piece) value)
        (rw (append_assoc name piece (joined pieces)) refl)

  pub feed_value :
      (pieces : List Bytes) (rest : List Callback) (form : PostForm) (headers : Headers)
      (name value : Bytes)
      → feed rules P (value_callbacks pieces rest) (in_headers form headers name value)
        ≡ feed rules P rest (in_headers form headers name (value ++ joined pieces))
  unfolding feed callback continue header_value
  feed_value [] rest form headers name value = rw (append-nil value) refl
  feed_value (piece ∷ pieces) rest form headers name value =
      rw (feed_value pieces rest form headers name (value ++ piece))
        (rw (append_assoc value piece (joined pieces)) refl)

  pub feed_headers :
      (sent : List HeaderPieces) (rest : List Callback) (form : PostForm) (headers : Headers)
      → feed rules P (header_callbacks sent rest) (in_headers form headers [] [])
        ≡ feed rules P rest (in_headers form (headers_read sent headers) [] [])
  unfolding feed callback continue header_end
  feed_headers [] rest form headers = refl
  feed_headers (h ∷ sent) rest form headers =
      feed_name h.name _ form headers [] []
      ∙ feed_value h.value _ form headers (joined h.name) []
      ∙ feed_headers sent rest form ((lower (joined h.name), joined h.value) ∷ headers)

  open_file : Bytes → Option TempFile
  open_file bytes = some (record { bytes = bytes; closed = false })

  pub feed_file :
      (pieces : List Bytes) (rest : List Callback) (form : PostForm) (headers : Headers)
      (field : Option Bytes) (written whole : Bytes) (size total : ℕ)
      → whole ≡ written ++ joined pieces
      → total ≡ size + length (joined pieces)
      → total ≤ rules.max_file_bytes
      → feed rules P
          (body_callbacks pieces rest)
          (in_body form headers field [] (some (record { bytes = written; closed = false })) size)
        ≡ feed rules P rest
            (in_body form headers field [] (some (record { bytes = whole; closed = false })) total)
  unfolding feed callback continue part_data keep_chunk write_file
  feed_file [] rest form headers field written whole size total w t h =
      let same : whole ≡ written = w ∙ append-nil written in
      let sized : total ≡ size = omega (arith, t) in rw (same, sized) refl
  feed_file (piece ∷ pieces) rest form headers field written whole size total w t h =
      let within : ltb rules.max_file_bytes (size + length piece) ≡ false =
        ground (arith, length-append piece (joined pieces)) in
      rw within (
        feed_file pieces rest form headers field (written ++ piece) whole (size + length piece)
          total (w ∙ sym (append_assoc written piece (joined pieces)))
          (omega (arith, t, length-append piece (joined pieces))) h)

  pub feed_text :
      (pieces : List Bytes) (rest : List Callback) (form : PostForm) (headers : Headers)
      (field : Option Bytes) (written whole : Bytes) (size total : ℕ)
      → is_field field rules.text_field ≡ true
      → whole ≡ written ++ joined pieces
      → total ≡ size + length (joined pieces)
      → total ≤ max_content_bytes
      → feed rules P (body_callbacks pieces rest) (in_body form headers field written none size)
        ≡ feed rules P rest (in_body form headers field whole none total)
  unfolding feed callback continue part_data keep_chunk write_text
  feed_text [] rest form headers field written whole size total f w t h =
      let same : whole ≡ written = w ∙ append-nil written in
      let sized : total ≡ size = omega (arith, t) in rw (same, sized) refl
  feed_text (piece ∷ pieces) rest form headers field written whole size total f w t h =
      let within : ltb max_content_bytes (size + length piece) ≡ false =
        ground (arith, length-append piece (joined pieces)) in
      rw f (
        rw within (
          feed_text pieces rest form headers field (written ++ piece) whole (size + length piece)
            total f (w ∙ sym (append_assoc written piece (joined pieces)))
            (omega (arith, t, length-append piece (joined pieces))) h))

  -- A body that is neither a file nor the text is dropped; only its size is counted.
  pub feed_other :
      (pieces : List Bytes) (rest : List Callback) (form : PostForm) (headers : Headers)
      (field : Option Bytes) (size total : ℕ)
      → is_field field rules.text_field ≡ false
      → total ≡ size + length (joined pieces)
      → feed rules P (body_callbacks pieces rest) (in_body form headers field [] none size)
        ≡ feed rules P rest (in_body form headers field [] none total)
  unfolding feed callback continue part_data keep_chunk
  feed_other [] rest form headers field size total f t =
      let sized : total ≡ size = omega (arith, t) in rw sized refl
  feed_other (piece ∷ pieces) rest form headers field size total f t = rw f (
      feed_other pieces rest form headers field (size + length piece) total f
        (omega (arith, t, length-append piece (joined pieces))))
