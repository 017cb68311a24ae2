-- ===== src/Multipart/Limits.antt =====
-- The limits of a form hold of all that was read when `_read` ends, in a form or in an error.
use udesa_x_posts_api.Common.{
  ℕ, ◌≡◌, refl, Option, none, some, not, ◌||◌, List, [], ◌∷◌, ◌==◌, length,
}
use udesa_x_posts_api.Common.Lists.{All-map}
use udesa_x_posts_api.Common.Joins.{length-map}
use udesa_x_posts_api.Common.Action.{Result, ok, problem, crash, raise_if}
use udesa_x_posts_api.Common.Action.Rules.{Holds}
use udesa_x_posts_api.Images.{Bytes, TempFile, close}
use udesa_x_posts_api.Multipart.{
  FormRules, FormParser, Parsed, Chunk, close_form, get, boundary_option, max_body_bytes,
}
use udesa_x_posts_api.Multipart.Reader.{Reader, new_reader, feed}
use udesa_x_posts_api.Multipart.Reading.{
  abort, or_abort, accept, finish, read_chunks, read_body, read, form_of, close_file,
}
use udesa_x_posts_api.Multipart.Bounds.{IsBounded, IsRoomFor, continued, new_reader-IsBounded}
use udesa_x_posts_api.Multipart.Bounds.Kept.{feed-IsBounded}

module _ (rules : FormRules) where
  closed-IsRoomFor :
      (r : Reader) (file : Option TempFile)
      → IsRoomFor rules r file
      → IsRoomFor rules (record r { form = close_form r.form }) (close_file file)
  unfolding close_form
  closed-IsRoomFor r none h = tt
  closed-IsRoomFor r (some file) (room, within) = (rw (length-map close r.form.images) room, within)

  abort-IsBounded : (r : Reader) → IsBounded rules r → IsBounded rules (abort r)
  unfolding abort close_form close
  abort-IsBounded r v = record {
    images_le = rw (length-map close r.form.images) v.images_le;
    each_le = All-map _ _ close (λ i h. h) r.form.images v.each_le;
    text_within = v.text_within;
    text_le = v.text_le;
    file_le = closed-IsRoomFor r r.file v.file_le;
  }

  or_abort-IsBounded :
      {A : Type 0} (result : Result A) (r : Reader)
      → IsBounded rules r
      → IsBounded rules (or_abort (result, r)).1
  unfolding or_abort
  or_abort-IsBounded (ok a) r v = v
  or_abort-IsBounded (problem e) r v = abort-IsBounded r v
  or_abort-IsBounded crash r v = abort-IsBounded r v

  module _ (P : FormParser) where
    accept-IsBounded :
        (taken : ℕ) (parsed : Parsed P.State) (r : Reader)
        → IsBounded rules r
        → IsBounded rules (accept rules P taken parsed r).1
    unfolding accept raise_if
    accept-IsBounded taken parsed r v =
        continued rules (feed rules P parsed.callbacks r).0
          (λ _. raise_if (parsed.failed || not (parsed.consumed == taken)) rules.invalid)
          (feed rules P parsed.callbacks r).1 (feed-IsBounded rules P parsed.callbacks r v)
          (λ t w a. w)

    finish-IsBounded :
        (s : P.State) (r : Reader) → IsBounded rules r → IsBounded rules (finish rules P s r).1
    unfolding finish raise_if
    finish-IsBounded s r v =
        let cs = (P.finalize s).callbacks in
        continued rules (feed rules P cs r).0
          (λ _ t. raise_if ((P.finalize s).failed || not t.finished) rules.invalid t)
          (feed rules P cs r).1 (feed-IsBounded rules P cs r v) (λ t w a. w)

    read_chunks-IsBounded :
        (chunks : List Chunk) (s : P.State) (r : Reader)
        → IsBounded rules r
        → IsBounded rules (read_chunks rules P chunks s r).1
    unfolding read_chunks
    read_chunks-IsBounded [] s r v = finish-IsBounded s r v
    read_chunks-IsBounded (Chunk.disconnected ∷ chunks) s r v = v
    read_chunks-IsBounded (Chunk.received bytes ∷ chunks) s r v =
        let parsed = P.write bytes s in
        let accepted = accept rules P (length bytes) parsed r in
        continued rules accepted.0 (λ _. read_chunks rules P chunks parsed.state) accepted.1
          (accept-IsBounded (length bytes) parsed r v)
          (λ t w a. read_chunks-IsBounded chunks parsed.state t w)

    form_of-keeps :
        (ended : Result (Unit {0}) × Reader)
        → IsBounded rules ended.1
        → (IsBounded rules (form_of rules P ended).1)
          × Holds (λ form r. form ≡ r.form) (form_of rules P ended).0 (form_of rules P ended).1
    unfolding form_of
    form_of-keeps (ok a, r) v = (v, refl)
    form_of-keeps (problem e, r) v = (v, tt)
    form_of-keeps (crash, r) v = (v, tt)

    read_body-IsBounded :
        (boundary : Option Bytes) (chunks : List Chunk)
        → (IsBounded rules (read_body rules P boundary chunks).1)
          × Holds
              (λ form r. form ≡ r.form)
              (read_body rules P boundary chunks).0
              (read_body rules P boundary chunks).1
    unfolding read_body
    read_body-IsBounded none chunks = (new_reader-IsBounded rules, tt)
    read_body-IsBounded (some []) chunks = (new_reader-IsBounded rules, tt)
    read_body-IsBounded (some (b ∷ boundary)) chunks =
        form_of-keeps (or_abort (read_chunks rules P chunks _ new_reader)) (
          or_abort-IsBounded (read_chunks rules P chunks _ new_reader).0 _ (
            read_chunks-IsBounded chunks (P.start (b ∷ boundary) (max_body_bytes rules)) new_reader
              (new_reader-IsBounded rules)))

    -- Whatever the parser makes of a body, when the reading of a form ends, in a form or in an error,
    -- no more images than the form admits were kept, none with more bytes than its limit, and no
    -- more text than its own; the form that is returned is what was kept.
    pub read-IsBounded :
        (content_type : Option Bytes) (chunks : List Chunk)
        → (IsBounded rules (read rules P content_type chunks).1)
          × Holds
              (λ form r. form ≡ r.form)
              (read rules P content_type chunks).0
              (read rules P content_type chunks).1
    unfolding read
    read-IsBounded content_type chunks =
        read_body-IsBounded (get boundary_option (P.options content_type)) chunks
