-- ===== src/Multipart/Reader.antt =====
-- The callbacks of `_Reader` (api/multipart.py), on the state that they keep between chunks.
use udesa_x_posts_api.Common.{
  ℕ, ◌+◌, ◌<>◌, decimal, Option, none, some, Bool, true, false, List, [], ◌∷◌, ◌++◌, if◌then◌else◌,
  leb, ltb, length,
}
use udesa_x_posts_api.Common.Action.{ProblemError, ok, problem, Action, continue}
use udesa_x_posts_api.Images.{Bytes, same_bytes, TempFile, post_title}
use udesa_x_posts_api.Multipart.{
  FormRules, PostForm, Headers, get, lower, Callback, FormParser, name_option, disposition_header,
  max_content_bytes,
}

pub record Reader : Type 0 where
  pub form : PostForm
  pub finished : Bool
  pub headers : Headers
  pub header_name : Bytes
  pub header_value : Bytes
  pub field : Option Bytes
  pub text : Bytes
  pub file : Option TempFile
  pub size : ℕ

abbrev pub new_reader : Reader
new_reader = record {
  form = record { content = []; images = [] };
  finished = false;
  headers = [];
  header_name = [];
  header_value = [];
  field = none;
  text = [];
  file = none;
  size = 0;
}

unfoldable pub content_too_long : ProblemError
content_too_long = record {
  status = 422;
  code = "post-too-long";
  title = post_title;
  detail = "El post no puede superar los " <> decimal 280 <> " caracteres";
  retry_after = none;
}

abbrev pub is_field : Option Bytes → Option Bytes → Bool
is_field (some a) (some b) = same_bytes a b
is_field _ _ = false

-- `part_begin`, `header_field`, `header_value` and `header_end` of `_Reader`.
unfoldable pub part_begin : Reader → Reader
part_begin r = record r { headers = []; field = none; text = []; file = none; size = 0 }

unfoldable pub header_field : Bytes → Reader → Reader
header_field chunk r = record r { header_name = r.header_name ++ chunk }

unfoldable pub header_value : Bytes → Reader → Reader
header_value chunk r = record r { header_value = r.header_value ++ chunk }

unfoldable pub header_end : Reader → Reader
header_end r = record r {
  headers = (lower r.header_name, r.header_value) ∷ r.headers;
  header_name = [];
  header_value = [];
}

module _ (rules : FormRules) (P : FormParser) where
  unfoldable pub headers_finished : Action Reader (Unit {0})
  headers_finished r =
      let field = get name_option (P.options (get disposition_header r.headers)) in
      let named = record r { field = field } in
      if is_field field (some rules.files_field)
      then if leb rules.max_files (length r.form.images)
        then (problem rules.too_many, named)
        else (ok tt, record named { file = some (record { bytes = []; closed = false }) })
      else (ok tt, named)

  -- The two branches of `part_data` that keep a chunk.
  unfoldable pub write_file : TempFile → Bytes → Action Reader (Unit {0})
  write_file file chunk r =
      if ltb rules.max_file_bytes r.size
      then (problem rules.too_large, r)
      else (ok tt, record r { file = some (record file { bytes = file.bytes ++ chunk }) })

  unfoldable pub write_text : Bytes → Action Reader (Unit {0})
  write_text chunk r =
      if ltb max_content_bytes r.size
      then (problem content_too_long, r)
      else (ok tt, record r { text = r.text ++ chunk })

  -- What `part_data` does with a chunk, by the file that is open.
  unfoldable pub keep_chunk : Option TempFile → Bytes → Action Reader (Unit {0})
  unfolding write_file write_text
  keep_chunk (some file) chunk r = write_file file chunk r
  keep_chunk none chunk r =
      if is_field r.field rules.text_field then write_text chunk r else (ok tt, r)

  unfoldable pub part_data : Bytes → Action Reader (Unit {0})
  unfolding keep_chunk
  part_data chunk r = keep_chunk r.file chunk (record r { size = r.size + length chunk })

  -- `self._text.decode("utf-8")`, with what it decodes to.
  unfoldable pub keep_text : Option (List ℕ) → Action Reader (Unit {0})
  keep_text none r = (problem rules.invalid, r)
  keep_text (some content) r = (ok tt, record r { form = record r.form { content = content } })

  -- What `part_end` does, by the file that is open.
  unfoldable pub keep_part : Option TempFile → Action Reader (Unit {0})
  unfolding keep_text
  keep_part (some file) r = (
    ok tt,
    record r {
      form = record r.form {
        images = r.form.images ++ ((record { file = file; size = r.size }) ∷ []);
      };
      file = none;
    },
  )
  keep_part none r =
      if is_field r.field rules.text_field then keep_text (P.decode r.text) r else (ok tt, r)

  unfoldable pub part_end : Action Reader (Unit {0})
  unfolding keep_part
  part_end r = keep_part r.file r

  unfoldable pub callback : Callback → Action Reader (Unit {0})
  unfolding part_begin header_field header_value header_end headers_finished part_data part_end
  callback Callback.part_begin r = (ok tt, part_begin r)
  callback (Callback.header_field chunk) r = (ok tt, header_field chunk r)
  callback (Callback.header_value chunk) r = (ok tt, header_value chunk r)
  callback Callback.header_end r = (ok tt, header_end r)
  callback Callback.headers_finished r = headers_finished r
  callback (Callback.part_data chunk) r = part_data chunk r
  callback Callback.part_end r = part_end r
  callback Callback.end_of_form r = (ok tt, record r { finished = true })

  -- The callbacks of one call of the parser; the first that raises ends it.
  unfoldable pub feed : List Callback → Action Reader (Unit {0})
  unfolding callback continue
  feed [] r = (ok tt, r)
  feed (c ∷ cs) r = continue (callback c r).0 (λ _. feed cs) (callback c r).1
