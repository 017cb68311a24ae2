-- ===== src/Multipart/Bounds.antt =====
-- What the reader of a form keeps stays within the limits of the form, whatever the parser calls.
pub mod Kept
use udesa_x_posts_api.Common.{
  ℕ, ◌+◌, ◌≤◌, ◌<◌, ◌≡◌, refl, arith, Option, none, some, false, List, [], ◌∷◌, ◌++◌, length,
  Bool-cases, inl, inr, ltb, leb,
}
use udesa_x_posts_api.Common.Lists.{All, length-append}
use udesa_x_posts_api.Common.Action.{Result, ok, problem, crash, Action, continue}
use udesa_x_posts_api.Images.{Bytes, TempFile, IncomingImage}
use udesa_x_posts_api.Multipart.{
  FormRules, FormParser, Callback, max_content_bytes, get, name_option, disposition_header,
}
use udesa_x_posts_api.Multipart.Reader.{
  Reader, new_reader, is_field, part_begin, header_field, header_value, header_end,
  headers_finished, write_file, write_text, keep_chunk, keep_part, part_data, keep_text, part_end,
  callback, feed,
}

module _ (rules : FormRules) where
  -- A file that is being written has room, and what is written counted in the size of its part.
  abbrev pub IsRoomFor : Reader → Option TempFile → Type 0
  IsRoomFor r none = Unit
  IsRoomFor r (some file) =
      (length r.form.images < rules.max_files)
      × ((length file.bytes ≤ r.size) × (length file.bytes ≤ rules.max_file_bytes))

  -- The images, the file being written and the text are within the limits of the form.
  pub record IsBounded (r : Reader) : Type 0 where
    pub images_le : length r.form.images ≤ rules.max_files
    pub each_le : All (λ i. length i.file.bytes ≤ rules.max_file_bytes) r.form.images
    pub text_within : length r.text ≤ r.size
    pub text_le : length r.text ≤ max_content_bytes
    pub file_le : IsRoomFor r r.file

  pub new_reader-IsBounded : IsBounded new_reader
  new_reader-IsBounded = record {
    images_le = omega arith;
    each_le = tt;
    text_within = omega arith;
    text_le = omega arith;
    file_le = tt;
  }

  room_of_larger :
      (r : Reader) (file : Option TempFile) (more : ℕ)
      → IsRoomFor r file
      → IsRoomFor (record r { size = r.size + more }) file
  room_of_larger r none more h = tt
  room_of_larger r (some file) more (a, (b, c)) = (a, (omega (arith, b), c))

  pub same_room :
      (r s : Reader) (file : Option TempFile)
      → s.form.images ≡ r.form.images
      → s.size ≡ r.size
      → IsRoomFor r file
      → IsRoomFor s file
  same_room r s none e d h = tt
  same_room r s (some file) e d (a, (b, c)) = (rw e a, (rw d b, c))

  pub sized-IsBounded :
      (r : Reader) (more : ℕ) → IsBounded r → IsBounded (record r { size = r.size + more })
  sized-IsBounded r more v = record {
    images_le = v.images_le;
    each_le = v.each_le;
    text_within = omega (arith, v.text_within);
    text_le = v.text_le;
    file_le = room_of_larger r r.file more v.file_le;
  }

  pub part_begin-IsBounded : (r : Reader) → IsBounded r → IsBounded (part_begin r)
  unfolding part_begin
  part_begin-IsBounded r v = record {
    images_le = v.images_le;
    each_le = v.each_le;
    text_within = omega arith;
    text_le = omega arith;
    file_le = tt;
  }

  -- Changes of the headers and of the field leave the limits alone.
  pub kept-IsBounded :
      (r s : Reader)
      → IsBounded r
      → s.form ≡ r.form
      → s.text ≡ r.text
      → s.file ≡ r.file
      → s.size ≡ r.size
      → IsBounded s
  kept-IsBounded r s v a b c d = record {
    images_le = rw a v.images_le;
    each_le = rw a v.each_le;
    text_within = rw (b, d) v.text_within;
    text_le = rw b v.text_le;
    file_le = rw (a, c, d) v.file_le;
  }

  -- The state after a call and what follows it, also where the call raised.
  pub continued :
      {A B : Type 0} (result : Result A) (next : A → Action Reader B) (r : Reader)
      → IsBounded r
      → ((s : Reader) → IsBounded s → (a : A) → IsBounded (next a s).1)
      → IsBounded (continue result next r).1
  unfolding continue
  continued (ok a) next r v h = h r v a
  continued (problem e) next r v h = v
  continued crash next r v h = v
