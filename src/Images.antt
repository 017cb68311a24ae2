-- ===== src/Images.antt =====
-- What an image has to be (app/image_rules.py). Bytes are numbers, and a temporary file is what was
-- written to it and whether it is closed.
pub mod ProfileImages
pub mod Replacing
pub mod PostMedia
pub mod PostImages
pub mod Uploading
pub mod Saving
pub mod Attaching
pub mod Publishing
use udesa_x_posts_api.Common.{
  ℕ, String, Option, none, some, Bool, true, false, ◌&&◌, List, [], ◌∷◌, if◌then◌else◌, ◌==◌, take,
}
use udesa_x_posts_api.Common.Action.{ProblemError}

abbrev pub Bytes : Type 0
Bytes = List ℕ

abbrev pub same_bytes : Bytes → Bytes → Bool
same_bytes [] [] = true
same_bytes [] (y ∷ ys) = false
same_bytes (x ∷ xs) [] = false
same_bytes (x ∷ xs) (y ∷ ys) = (x == y) && same_bytes xs ys

abbrev pub max_images : ℕ
max_images = 4

abbrev pub max_image_bytes : ℕ
max_image_bytes = 1048576

abbrev pub post_title : String
post_title = "No se pudo publicar el post"

abbrev pub profile_title : String
profile_title = "No se pudo actualizar la imagen"

pub record ProfileImageKind : Type 0 where
  pub name : String
  pub max_bytes : ℕ
  pub too_large_detail : String

abbrev pub avatar : ProfileImageKind
avatar = record {
  name = "avatar";
  max_bytes = 5242880;
  too_large_detail = "La foto de perfil puede pesar hasta 5 MB.";
}

abbrev pub cover : ProfileImageKind
cover = record {
  name = "cover";
  max_bytes = 10485760;
  too_large_detail = "La portada puede pesar hasta 10 MB.";
}

pub record ImageFormat : Type 0 where
  pub mime_type : String
  pub extension : String
  pub signature : Bytes

abbrev pub jpeg : ImageFormat
jpeg = record { mime_type = "image/jpeg"; extension = "jpg"; signature = 0xFF ∷ 0xD8 ∷ 0xFF ∷ [] }

abbrev pub png : ImageFormat
png = record {
  mime_type = "image/png";
  extension = "png";
  signature = 0x89 ∷ 0x50 ∷ 0x4E ∷ 0x47 ∷ 0x0D ∷ 0x0A ∷ 0x1A ∷ 0x0A ∷ [];
}

abbrev pub formats : List ImageFormat
formats = jpeg ∷ png ∷ []

abbrev pub header_bytes : ℕ
header_bytes = 8

-- `header.startswith(signature)`
abbrev pub starts_with : Bytes → Bytes → Bool
starts_with header [] = true
starts_with [] (y ∷ ys) = false
starts_with (x ∷ xs) (y ∷ ys) = (x == y) && starts_with xs ys

-- The loop of `detect_format` over the formats.
abbrev pub first_format : Bytes → List ImageFormat → Option ImageFormat
first_format header [] = none
first_format header (candidate ∷ rest) =
    if starts_with header candidate.signature then some candidate else first_format header rest

unfoldable pub detect_format : Bytes → Option ImageFormat
detect_format header = first_format header formats

pub record TempFile : Type 0 where
  pub bytes : Bytes
  pub closed : Bool

pub record IncomingImage : Type 0 where
  pub file : TempFile
  pub size : ℕ

-- `IncomingImage.header`
unfoldable pub header : IncomingImage → Bytes
header image = take header_bytes image.file.bytes

unfoldable pub close : IncomingImage → IncomingImage
close image = record image { file = record image.file { closed = true } }

abbrev pub too_many_images : ProblemError
too_many_images = record {
  status = 422;
  code = "too-many-images";
  title = post_title;
  detail = "Un post admite hasta 4 imágenes.";
  retry_after = none;
}

abbrev pub image_too_large : String → String → ProblemError
image_too_large detail title = record {
  status = 422;
  code = "image-too-large";
  title = title;
  detail = detail;
  retry_after = none;
}

-- The default detail of `image_too_large`.
abbrev pub post_image_detail : String
post_image_detail = "Cada imagen puede pesar hasta 1 MB."

abbrev pub image_format_not_supported : String → ProblemError
image_format_not_supported title = record {
  status = 422;
  code = "image-format-not-supported";
  title = title;
  detail = "Solo se aceptan imágenes JPG o PNG.";
  retry_after = none;
}

abbrev pub invalid_multipart : String → ProblemError
invalid_multipart title = record {
  status = 400;
  code = "invalid-multipart";
  title = title;
  detail = "No se pudo leer el contenido enviado.";
  retry_after = none;
}
