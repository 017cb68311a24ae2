-- ===== src/Multipart/Parts.antt =====
-- The parts of a form as a client sends them, the callbacks that they are parsed into, in pieces of
-- any size, and the form that they mean.
use udesa_x_posts_api.Common.{
  ℕ, Option, none, some, Bool, false, List, [], ◌∷◌, ◌++◌, if◌then◌else◌, length,
}
use udesa_x_posts_api.Images.{Bytes, IncomingImage}
use udesa_x_posts_api.Multipart.{
  FormRules, FormParser, Callback, Headers, PostForm, get, lower, name_option, disposition_header,
}
use udesa_x_posts_api.Multipart.Reader.{is_field}

-- A header and the body of a part, cut into pieces by the chunks of the request.
pub record HeaderPieces : Type 0 where
  pub name : List Bytes
  pub value : List Bytes

pub record Part : Type 0 where
  pub headers : List HeaderPieces
  pub body : List Bytes

abbrev pub joined : List Bytes → Bytes
joined [] = []
joined (piece ∷ pieces) = piece ++ joined pieces

abbrev pub name_callbacks : List Bytes → List Callback → List Callback
name_callbacks [] rest = rest
name_callbacks (piece ∷ pieces) rest = Callback.header_field piece ∷ name_callbacks pieces rest

abbrev pub value_callbacks : List Bytes → List Callback → List Callback
value_callbacks [] rest = rest
value_callbacks (piece ∷ pieces) rest = Callback.header_value piece ∷ value_callbacks pieces rest

abbrev pub body_callbacks : List Bytes → List Callback → List Callback
body_callbacks [] rest = rest
body_callbacks (piece ∷ pieces) rest = Callback.part_data piece ∷ body_callbacks pieces rest

abbrev pub header_callbacks : List HeaderPieces → List Callback → List Callback
header_callbacks [] rest = rest
header_callbacks (h ∷ headers) rest =
    name_callbacks h.name
      (value_callbacks h.value (Callback.header_end ∷ header_callbacks headers rest))

abbrev pub part_callbacks : Part → List Callback → List Callback
part_callbacks part rest =
    Callback.part_begin
    ∷ header_callbacks part.headers
        (Callback.headers_finished ∷ body_callbacks part.body (Callback.part_end ∷ rest))

abbrev pub form_callbacks : List Part → List Callback
form_callbacks [] = Callback.end_of_form ∷ []
form_callbacks (part ∷ parts) = part_callbacks part (form_callbacks parts)

-- The headers of a part, the last one first.
abbrev pub headers_read : List HeaderPieces → Headers → Headers
headers_read [] read = read
headers_read (h ∷ headers) read =
    headers_read headers ((lower (joined h.name), joined h.value) ∷ read)

module _ (rules : FormRules) (P : FormParser) where
  abbrev pub field_of : Part → Option Bytes
  field_of part =
      get name_option (P.options (get disposition_header (headers_read part.headers [])))

  abbrev pub is_file : Part → Bool
  is_file part = is_field (field_of part) (some rules.files_field)

  abbrev pub is_text : Part → Bool
  is_text part = is_field (field_of part) rules.text_field

  abbrev pub file_of : Part → IncomingImage
  file_of part = record {
    file = record { bytes = joined part.body; closed = false };
    size = length (joined part.body);
  }

  abbrev pub text_or : List ℕ → Option (List ℕ) → List ℕ
  text_or old none = old
  text_or old (some new) = new

  -- What a part adds to the form: an image, the text in place of the one before, or nothing.
  abbrev pub with_part : PostForm → Part → PostForm
  with_part form part =
      if is_file part
      then record form { images = form.images ++ (file_of part ∷ []) }
      else if is_text part
      then record form { content = text_or form.content (P.decode (joined part.body)) }
      else form

  abbrev pub with_parts : PostForm → List Part → PostForm
  with_parts form [] = form
  with_parts form (part ∷ parts) = with_parts (with_part form part) parts
