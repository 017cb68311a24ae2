-- ===== src/Multipart/Reading.antt =====
-- The loop over the body: `_read`, `read_post_form` and `read_profile_image` (api/multipart.py).
use udesa_x_posts_api.Common.{
  ℕ, Option, none, some, Bool, true, false, not, ◌||◌, List, [], ◌∷◌, if◌then◌else◌, ◌==◌, length,
  leb, ◌&&◌,
}
use udesa_x_posts_api.Common.Action.{Result, ok, problem, crash, Action, continue, raise_if}
use udesa_x_posts_api.Images.{
  Bytes, IncomingImage, TempFile, ProfileImageKind, close, invalid_multipart, profile_title,
  starts_with,
}
use udesa_x_posts_api.Multipart.{
  FormRules, PostForm, get, FormParser, Parsed, Chunk, boundary_option, max_body_bytes, post_rules,
  profile_rules, close_form, lower,
}
use udesa_x_posts_api.Multipart.Reader.{Reader, new_reader, feed}

-- `multipart/form-data`
abbrev multipart_type : Bytes
multipart_type =
    0x6D ∷ 0x75 ∷ 0x6C ∷ 0x74 ∷ 0x69 ∷ 0x70 ∷ 0x61 ∷ 0x72 ∷ 0x74 ∷ 0x2F ∷ 0x66 ∷ 0x6F ∷ 0x72 ∷ 0x6D
    ∷ 0x2D ∷ 0x64 ∷ 0x61 ∷ 0x74 ∷ 0x61 ∷ []

abbrev pub close_file : Option TempFile → Option TempFile
close_file none = none
close_file (some file) = some (record file { closed = true })

-- `abort`
unfoldable pub abort : Reader → Reader
unfolding close_form close
abort r = record r { form = close_form r.form; file = close_file r.file }

-- The `except` clauses of `_read`: every exception releases what was received.
unfoldable pub or_abort : {A : Type 0} → Result A × Reader → Result A × Reader
or_abort (ok a, r) = (ok a, r)
or_abort (problem e, r) = (problem e, abort r)
or_abort (crash, r) = (crash, abort r)

module _ (rules : FormRules) (P : FormParser) where
  -- One call of the parser that has to take all bytes of the chunk: its callbacks, then its failure.
  unfoldable pub accept : ℕ → Parsed P.State → Action Reader (Unit {0})
  unfolding feed raise_if
  accept taken parsed r =
      continue (feed rules P parsed.callbacks r).0
        (λ _. raise_if (parsed.failed || not (parsed.consumed == taken)) rules.invalid)
        (feed rules P parsed.callbacks r).1

  -- `parser.finalize()` and the test of `reader.finished`.
  unfoldable pub finish : P.State → Action Reader (Unit {0})
  unfolding feed raise_if
  finish s r =
      continue (feed rules P (P.finalize s).callbacks r).0
        (λ _ t. raise_if ((P.finalize s).failed || not t.finished) rules.invalid t)
        (feed rules P (P.finalize s).callbacks r).1

  -- The loop over `request.stream()`.
  unfoldable pub read_chunks : List Chunk → P.State → Action Reader (Unit {0})
  unfolding accept finish
  read_chunks [] s r = finish s r
  read_chunks (Chunk.disconnected ∷ chunks) s r = (crash, r)
  read_chunks (Chunk.received bytes ∷ chunks) s r =
      continue (accept (length bytes) (P.write bytes s) r).0
        (λ _. read_chunks chunks (P.write bytes s).state)
        (accept (length bytes) (P.write bytes s) r).1

  unfoldable pub form_of : Result (Unit {0}) × Reader → Result PostForm × Reader
  form_of (ok a, r) = (ok r.form, r)
  form_of (problem e, r) = (problem e, r)
  form_of (crash, r) = (crash, r)

  -- The body, once the boundary is known; a missing one and an empty one are refused.
  unfoldable pub read_body : Option Bytes → List Chunk → Result PostForm × Reader
  unfolding or_abort read_chunks form_of
  read_body none chunks = (problem rules.invalid, new_reader)
  read_body (some []) chunks = (problem rules.invalid, new_reader)
  read_body (some (b ∷ boundary)) chunks =
      form_of
        (or_abort (read_chunks chunks (P.start (b ∷ boundary) (max_body_bytes rules)) new_reader))

  -- `_read`
  unfoldable pub read : Option Bytes → List Chunk → Result PostForm × Reader
  unfolding read_body
  read content_type chunks = read_body (get boundary_option (P.options content_type)) chunks

-- The white space of Latin-1, which headers are read in.
abbrev is_space : ℕ → Bool
is_space b = (leb 9 b && leb b 13) || ((leb 28 b && leb b 32) || ((b == 133) || (b == 160)))

-- `lstrip`
abbrev strip_left : Bytes → Bytes
strip_left [] = []
strip_left (b ∷ bytes) = if is_space b then strip_left bytes else b ∷ bytes

unfoldable pub is_multipart : Option Bytes → Bool
is_multipart none = false
is_multipart (some content_type) = starts_with (strip_left (lower content_type)) multipart_type

-- `read_post_form`
unfoldable pub read_post_form : FormParser → Option Bytes → List Chunk → Result PostForm × Reader
unfolding read
read_post_form = read post_rules

-- The end of `read_profile_image`: the one image of the form.
unfoldable pub one_image : Result PostForm → Result IncomingImage
one_image (problem e) = problem e
one_image crash = crash
one_image (ok form) = elim form.images [
  | [] ↦ problem (invalid_multipart profile_title)
  | image ∷ images ↦ ok image
]

unfoldable pub read_profile_image :
    FormParser → ProfileImageKind → Option Bytes → List Chunk → Result IncomingImage × Reader
unfolding read one_image is_multipart
read_profile_image P kind content_type chunks =
    if is_multipart content_type
    then (
      one_image (read (profile_rules kind) P content_type chunks).0,
      (read (profile_rules kind) P content_type chunks).1,
    )
    else (problem (invalid_multipart profile_title), new_reader)
