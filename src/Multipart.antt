-- ===== src/Multipart.antt =====
-- Uploads read off the request stream (api/multipart.py): the callbacks of `_Reader` and the loop
-- over the chunks of the body. The parser of python_multipart is a parameter: what a chunk gives is
-- a list of callbacks, how much of it was consumed, and whether the parser raised.
pub mod Reader
pub mod Reading
pub mod Bounds
pub mod Limits
pub mod Release
pub mod Parts
pub mod Feeding
pub mod RoundTrip
pub mod WholeForm
use udesa_x_posts_api.Common.{
  ℕ, ◌+◌, ◌*◌, ◌<>◌, decimal, Option, none, some, Bool, true, false, not, ◌&&◌, ◌||◌, List, [], ◌∷◌,
  ◌++◌, map, if◌then◌else◌, ◌==◌, leb, ltb, length, is_some,
}
use udesa_x_posts_api.Common.Action.{
  when◌run◌otherwise◌, ProblemError, Result, ok, problem, crash, Action, pure, raise, continue,
  ◌>>=◌, ◌>>◌, modify, raise_if, gets, require,
}
use udesa_x_posts_api.Images.{
  Bytes, same_bytes, TempFile, IncomingImage, ProfileImageKind, close, max_images, max_image_bytes,
  too_many_images, image_too_large, invalid_multipart, post_image_detail, post_title, profile_title,
}

abbrev pub content_field : Bytes
content_field = 0x63 ∷ 0x6F ∷ 0x6E ∷ 0x74 ∷ 0x65 ∷ 0x6E ∷ 0x74 ∷ []

abbrev pub profile_image_field : Bytes
profile_image_field = 0x69 ∷ 0x6D ∷ 0x61 ∷ 0x67 ∷ 0x65 ∷ []

abbrev pub images_field : Bytes
images_field = profile_image_field ++ (0x73 ∷ [])

-- `b"name"`, `b"boundary"` and `b"content-disposition"`
abbrev pub name_option : Bytes
name_option = 0x6E ∷ 0x61 ∷ 0x6D ∷ 0x65 ∷ []

abbrev pub boundary_option : Bytes
boundary_option = 0x62 ∷ 0x6F ∷ 0x75 ∷ 0x6E ∷ 0x64 ∷ 0x61 ∷ 0x72 ∷ 0x79 ∷ []

abbrev pub disposition_header : Bytes
disposition_header =
    content_field
    ++ (0x2D ∷ 0x64 ∷ 0x69 ∷ 0x73 ∷ 0x70 ∷ 0x6F ∷ 0x73 ∷ 0x69 ∷ 0x74 ∷ 0x69 ∷ 0x6F ∷ 0x6E ∷ [])

abbrev pub max_content_bytes : ℕ
max_content_bytes = 16384

abbrev pub envelope_bytes : ℕ
envelope_bytes = 65536

pub record FormRules : Type 0 where
  pub files_field : Bytes
  pub max_files : ℕ
  pub max_file_bytes : ℕ
  pub too_many : ProblemError
  pub too_large : ProblemError
  pub invalid : ProblemError
  pub text_field : Option Bytes

unfoldable pub max_body_bytes : FormRules → ℕ
max_body_bytes rules =
    rules.max_files * rules.max_file_bytes
    + (if is_some rules.text_field then max_content_bytes else 0)
    + envelope_bytes

abbrev pub post_rules : FormRules
post_rules = record {
  files_field = images_field;
  max_files = max_images;
  max_file_bytes = max_image_bytes;
  too_many = too_many_images;
  too_large = image_too_large post_image_detail post_title;
  invalid = invalid_multipart post_title;
  text_field = some content_field;
}

-- The rules of `read_profile_image`.
abbrev pub profile_rules : ProfileImageKind → FormRules
profile_rules kind = record {
  files_field = profile_image_field;
  max_files = 1;
  max_file_bytes = kind.max_bytes;
  too_many = invalid_multipart profile_title;
  too_large = image_too_large kind.too_large_detail profile_title;
  invalid = invalid_multipart profile_title;
  text_field = none;
}

-- The content is its code points.
pub record PostForm : Type 0 where
  pub content : List ℕ
  pub images : List IncomingImage

unfoldable pub close_form : PostForm → PostForm
close_form form = record form { images = map close form.images }

-- A dict: a later entry hides an earlier one of the same key.
abbrev pub Headers : Type 0
Headers = List (Bytes × Bytes)

abbrev pub get : Bytes → Headers → Option Bytes
get key [] = none
get key ((name, value) ∷ rest) = if same_bytes name key then some value else get key rest

-- `bytes.lower`
abbrev pub lower : Bytes → Bytes
lower = map (λ b. if leb 65 b && leb b 90 then b + 32 else b)

pub data Callback : Type 0 where
  part_begin header_end headers_finished part_end end_of_form : Callback
  header_field header_value part_data : Bytes → Callback

-- What a call of `write` or `finalize` does: the callbacks in order, then whether it raises
-- FormParserError, and how many bytes it says that it took.
pub record Parsed (S : Type 0) : Type 0 where
  pub callbacks : List Callback
  pub failed : Bool
  pub consumed : ℕ
  pub state : S

-- `MultipartParser`, the options of `parse_options_header`, and `bytes.decode("utf-8")`.
pub record FormParser : Type 1 where
  pub State : Type 0
  pub start : Bytes → ℕ → State
  pub write : Bytes → State → Parsed State
  pub finalize : State → Parsed State
  pub options : Option Bytes → Headers
  pub decode : Bytes → Option (List ℕ)

-- What the stream of the request yields: a chunk, or the exception of a client that went away.
pub data Chunk : Type 0 where
  received : Bytes → Chunk
  disconnected : Chunk
