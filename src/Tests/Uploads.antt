-- ===== src/Tests/Uploads.antt =====
-- Forms read with a parser that calls what a script says, one entry for each chunk.
use udesa_x_posts_api.Common.{
  ◌≡◌, refl, Option, none, some, false, List, [], ◌∷◌, map, length, take, drop, arith,
}
use udesa_x_posts_api.Common.Action.{ok}
use udesa_x_posts_api.Common.Action.Rules.{Holds}
use udesa_x_posts_api.Images.{Bytes}
use udesa_x_posts_api.Multipart.{
  FormParser, Callback, Chunk, Headers, post_rules, content_field, images_field, disposition_header,
  name_option, boundary_option,
}
use udesa_x_posts_api.Multipart.Reader.{new_reader}
use udesa_x_posts_api.Multipart.Reading.{read}
use udesa_x_posts_api.Multipart.Bounds.{IsBounded}
use udesa_x_posts_api.Multipart.Limits.{read-IsBounded}
use udesa_x_posts_api.Multipart.Parts.{Part, form_callbacks, with_parts}
use udesa_x_posts_api.Multipart.RoundTrip.{IsAccepted}
use udesa_x_posts_api.Multipart.WholeForm.{read-form_callbacks}

abbrev options_of : Option Bytes → Headers
options_of none = []
options_of (some value) = (name_option, value) ∷ (boundary_option, value) ∷ []

abbrev next_of : List (List Callback) → List Callback
next_of [] = []
next_of (cs ∷ rest) = cs

abbrev scripted : List (List Callback) → FormParser
scripted script = record {
  State = List (List Callback);
  start = λ boundary limit. script;
  write = λ bytes s. record {
    callbacks = next_of s;
    failed = false;
    consumed = length bytes;
    state = drop 1 s;
  };
  finalize = λ s. record { callbacks = next_of s; failed = false; consumed = 0; state = [] };
  options = options_of;
  decode = some;
}

-- A text and an image; the header of the text comes in pieces, and so do both bodies.
abbrev text_part : Part
text_part = record {
  headers =
      (record {
        name = take 7 disposition_header ∷ drop 7 disposition_header ∷ [];
        value = take 2 content_field ∷ drop 2 content_field ∷ [];
      })
      ∷ [];
  body = (0x68 ∷ []) ∷ (0x69 ∷ []) ∷ [];
}

abbrev image_part : Part
image_part = record {
  headers = (record { name = disposition_header ∷ []; value = images_field ∷ [] }) ∷ [];
  body = (0xFF ∷ 0xD8 ∷ []) ∷ [] ∷ (0xFF ∷ []) ∷ [];
}

abbrev sent : List Part
sent = text_part ∷ image_part ∷ []

abbrev script : List (List Callback)
script = take 8 (form_callbacks sent) ∷ drop 8 (form_callbacks sent) ∷ []

text_part-IsAccepted : IsAccepted post_rules (scripted script) text_part
text_part-IsAccepted = record {
  file_le = λ e. omega arith;
  text_le = λ e. omega arith;
  text_decodes = λ e. (0x68 ∷ 0x69 ∷ [], refl);
}

image_part-IsAccepted : IsAccepted post_rules (scripted script) image_part
image_part-IsAccepted = record {
  file_le = λ e. omega arith;
  text_le = λ e. omega arith;
  text_decodes = λ e. (0xFF ∷ 0xD8 ∷ 0xFF ∷ [], refl);
}

abbrev body : List Bytes
body = (1 ∷ []) ∷ (2 ∷ []) ∷ []

read-form_callbacks_example :
    (read post_rules (scripted script) (some (7 ∷ [])) (map Chunk.received body)).0
    ≡ ok (with_parts post_rules (scripted script) new_reader.form sent)
read-form_callbacks_example =
    read-form_callbacks post_rules (scripted script) (some (7 ∷ [])) 7 [] body sent refl refl
      (text_part-IsAccepted, (image_part-IsAccepted, tt)) (omega arith)

read-IsBounded_example :
    let ended = read post_rules (scripted script) (some (7 ∷ [])) (map Chunk.received body) in
    (IsBounded post_rules ended.1) × Holds (λ form r. form ≡ r.form) ended.0 ended.1
read-IsBounded_example =
    read-IsBounded post_rules (scripted script) (some (7 ∷ [])) (map Chunk.received body)
