-- ===== src/Multipart/Release.antt =====
-- Reading a form gives the form, or releases every temporary file that the reader holds.
use udesa_x_posts_api.Common.{
  ◌≡◌, refl, Option, none, some, true, List, [], ◌∷◌, map, inl, inr, ◌⊎◌,
}
use udesa_x_posts_api.Common.Lists.{All}
use udesa_x_posts_api.Common.Action.{Result, ok, problem, crash}
use udesa_x_posts_api.Images.{Bytes, TempFile, IncomingImage, close}
use udesa_x_posts_api.Multipart.{
  FormRules, PostForm, FormParser, Chunk, close_form, get, boundary_option, max_body_bytes,
}
use udesa_x_posts_api.Multipart.Reader.{Reader, new_reader}
use udesa_x_posts_api.Multipart.Reading.{
  abort, or_abort, read_chunks, read_body, read, form_of, close_file,
}

abbrev IsClosed : Option TempFile → Type 0
IsClosed none = Unit
IsClosed (some file) = file.closed ≡ true

-- No file of the form and no file that was being written is open.
pub record IsReleased (r : Reader) : Type 0 where
  pub images_closed : All (λ i. i.file.closed ≡ true) r.form.images
  pub file_closed : IsClosed r.file

All-closed : (images : List IncomingImage) → All (λ i. i.file.closed ≡ true) (map close images)
unfolding close
All-closed [] = tt
All-closed (image ∷ images) = (refl, All-closed images)

IsClosed-close_file : (file : Option TempFile) → IsClosed (close_file file)
IsClosed-close_file none = tt
IsClosed-close_file (some file) = refl

abort-IsReleased : (r : Reader) → IsReleased (abort r)
unfolding abort close_form
abort-IsReleased r = record {
  images_closed = All-closed r.form.images;
  file_closed = IsClosed-close_file r.file;
}

-- A form, or everything released.
abbrev pub IsSettled : Result PostForm × Reader → Type 0
IsSettled (result, r) = ((form : PostForm) × (result ≡ ok form)) ⊎ IsReleased r

module _ (rules : FormRules) (P : FormParser) where
  form_of-IsSettled :
      (result : Result (Unit {0})) (r : Reader) → IsSettled (form_of rules P (or_abort (result, r)))
  unfolding form_of or_abort
  form_of-IsSettled (ok a) r = inl (r.form, refl)
  form_of-IsSettled (problem e) r = inr (abort-IsReleased r)
  form_of-IsSettled crash r = inr (abort-IsReleased r)

  nothing-IsReleased : IsReleased new_reader
  nothing-IsReleased = record { images_closed = tt; file_closed = tt }

  read_body-IsSettled :
      (boundary : Option Bytes) (chunks : List Chunk)
      → IsSettled (read_body rules P boundary chunks)
  unfolding read_body
  read_body-IsSettled none chunks = inr nothing-IsReleased
  read_body-IsSettled (some []) chunks = inr nothing-IsReleased
  read_body-IsSettled (some (b ∷ boundary)) chunks =
      let ended =
        read_chunks rules P chunks (P.start (b ∷ boundary) (max_body_bytes rules)) new_reader in
      form_of-IsSettled ended.0 ended.1

  -- Whatever the parser makes of a body, and also when the client goes away: reading gives a form, or
  -- no temporary file that the reader still holds stays open.
  read-IsSettled :
      (content_type : Option Bytes) (chunks : List Chunk)
      → IsSettled (read rules P content_type chunks)
  unfolding read
  read-IsSettled content_type chunks =
      read_body-IsSettled (get boundary_option (P.options content_type)) chunks
