-- ===== src/Multipart/WholeForm.antt =====
-- A whole form read through the parser: `_read` on a body that was cut anywhere.
use udesa_x_posts_api.Common.{
  ℕ, ◌≤◌, ◌≡◌, refl, ◌∙◌, sym, ap, arith, Option, none, some, Bool, true, false, not, ◌||◌, List,
  [], ◌∷◌, ◌++◌, map, length, ◌==◌, Bool-cases, inl, inr,
}
use udesa_x_posts_api.Common.Lists.{All, length-append}
use udesa_x_posts_api.Common.Action.{Result, ok, problem, crash, continue, Action, raise_if}
use mathlib.Core.List.{append-nil}
use udesa_x_posts_api.Images.{Bytes}
use udesa_x_posts_api.Multipart.{
  FormRules, FormParser, Callback, Chunk, PostForm, get, boundary_option, max_body_bytes,
}
use udesa_x_posts_api.Multipart.Reader.{Reader, new_reader, callback, feed, part_begin}
use udesa_x_posts_api.Multipart.Reading.{
  or_abort, accept, finish, read_chunks, read_body, read, form_of,
}
use udesa_x_posts_api.Multipart.Parts.{
  Part, form_callbacks, is_file, is_text, with_part, with_parts, file_of,
}
use udesa_x_posts_api.Multipart.RoundTrip.{IsAccepted, IsBetween, feed_part}

-- The calls of a piece before those of the pieces after it, where nothing failed.
abbrev pub and_then : Bool → List Callback → Option (List Callback) → Option (List Callback)
and_then true cs rest = none
and_then false cs none = none
and_then false cs (some rest) = some (cs ++ rest)

-- What a parser calls for the pieces of a body, where it takes each piece whole and does not fail.
abbrev pub parse_all : (P : FormParser) → List Bytes → P.State → Option (List Callback)
parse_all P [] s = and_then (P.finalize s).failed (P.finalize s).callbacks (some [])
parse_all P (bytes ∷ pieces) s =
    and_then ((P.write bytes s).failed || not ((P.write bytes s).consumed == length bytes))
      (P.write bytes s).callbacks (parse_all P pieces (P.write bytes s).state)

and_then-some :
    (failed : Bool) (xs : List Callback) (later : Option (List Callback)) (cs : List Callback)
    → and_then failed xs later ≡ some cs
    → (failed ≡ false) × ((rest : List Callback) × ((later ≡ some rest) × (cs ≡ xs ++ rest)))
and_then-some true xs later cs h = cc
and_then-some false xs none cs h = cc
and_then-some false xs (some rest) cs h = (refl, (rest, (refl, cc)))

module _ (rules : FormRules) (P : FormParser) where
  with_part_more :
      (form : PostForm) (part : Part)
      → length form.images ≤ length (with_part rules P form part).images
  with_part_more form part = elim (Bool-cases (is_file rules P part)) [
    | inl file ↦ rw file (omega (arith, length-append form.images (file_of rules P part ∷ [])))
    | inr other ↦ elim (Bool-cases (is_text rules P part)) [
      | inl text ↦ rw other (rw text (omega arith))
      | inr none_of ↦ rw other (rw none_of (omega arith))
    ]
  ]

  with_parts_more :
      (parts : List Part) (form : PostForm)
      → length form.images ≤ length (with_parts rules P form parts).images
  with_parts_more [] form = omega arith
  with_parts_more (part ∷ parts) form =
      omega (arith, with_part_more form part, with_parts_more parts (with_part rules P form part))

  -- The reader has taken the whole form.
  abbrev HasRead : List Callback → Reader → PostForm → Type 0
  HasRead cs r form =
      (s : Reader) × ((feed rules P cs r ≡ (ok tt, s)) × ((s.finished ≡ true) × (s.form ≡ form)))

  feed_form :
      (parts : List Part) (form : PostForm) (r : Reader)
      → IsBetween rules P form r
      → All (IsAccepted rules P) parts
      → length (with_parts rules P form parts).images ≤ rules.max_files
      → HasRead (form_callbacks parts) r (with_parts rules P form parts)
  unfolding feed callback continue part_begin
  feed_form [] form r between accepted room =
      (record r { finished = true }, (refl, (refl, ap (λ s. s.form) between)))
  feed_form (part ∷ parts) form r between accepted room =
      let enough = with_parts_more parts (with_part rules P form part) in
      let (s, (e, after)) =
        feed_part rules P part (form_callbacks parts) form r between accepted.0
          (omega (arith, room, enough)) in
      let (t, (f, rest)) = feed_form parts (with_part rules P form part) s after accepted.1 room in
      (t, (e ∙ f, rest))

  continue_twice :
      (result : Result (Unit {0})) (f g h : Unit {0} → Action Reader (Unit {0})) (r : Reader)
      → ((s : Reader) → h tt s ≡ continue (f tt s).0 g (f tt s).1)
      → continue result h r ≡ continue (continue result f r).0 g (continue result f r).1
  unfolding continue
  continue_twice (ok tt) f g h r e = e r
  continue_twice (problem p) f g h r e = refl
  continue_twice crash f g h r e = refl

  feed-append :
      (xs ys : List Callback) (r : Reader)
      → feed rules P (xs ++ ys) r
        ≡ continue (feed rules P xs r).0 (λ _. feed rules P ys) (feed rules P xs r).1
  unfolding feed continue
  feed-append [] ys r = refl
  feed-append (c ∷ xs) ys r =
      continue_twice (callback rules P c r).0 (λ _. feed rules P xs) (λ _. feed rules P ys)
        (λ _. feed rules P (xs ++ ys)) (callback rules P c r).1 (λ s. feed-append xs ys s)

  -- Where all calls succeed, so do the first ones.
  first_succeeds :
      (ended : Result (Unit {0}) × Reader) (ys : List Callback) (t : Reader)
      → continue ended.0 (λ _. feed rules P ys) ended.1 ≡ (ok tt, t)
      → (m : Reader) × ((ended ≡ (ok tt, m)) × (feed rules P ys m ≡ (ok tt, t)))
  unfolding continue
  first_succeeds (ok tt, m) ys t h = (m, (refl, h))
  first_succeeds (problem p, m) ys t h = cc
  first_succeeds (crash, m) ys t h = cc

  read_pieces :
      (pieces : List Bytes) (s : P.State) (r t : Reader) (cs : List Callback)
      → parse_all P pieces s ≡ some cs
      → feed rules P cs r ≡ (ok tt, t)
      → t.finished ≡ true
      → read_chunks rules P (map Chunk.received pieces) s r ≡ (ok tt, t)
  unfolding read_chunks finish accept raise_if continue
  read_pieces [] s r t cs h e done =
      let (works, (rest, (nothing, joined))) =
        and_then-some (P.finalize s).failed (P.finalize s).callbacks (some []) cs h in
      let same : cs ≡ (P.finalize s).callbacks ++ [] = cc in
      let fed : feed rules P (P.finalize s).callbacks r ≡ (ok tt, t) =
        rw (same, append-nil (P.finalize s).callbacks) at e in
      rw fed (rw works (rw done refl))
  read_pieces (bytes ∷ pieces) s r t cs h e done =
      let (works, (rest, (later, same))) =
        and_then-some _ (P.write bytes s).callbacks (parse_all P pieces (P.write bytes s).state) cs
          h in
      let (m, (first, after)) =
        first_succeeds (feed rules P (P.write bytes s).callbacks r) rest t
          (sym (feed-append (P.write bytes s).callbacks rest r) ∙ (rw same at e)) in
      rw first (rw works (read_pieces pieces (P.write bytes s).state m t rest later after done))

  -- A form within the limits, whose parts the parser calls for: however the body was cut into chunks,
  -- and each part into pieces, reading gives the files of the form in their order, each with all its
  -- bytes and its size, and the text that its last text part decodes to.
  pub read-form_callbacks :
      (content_type : Option Bytes) (b : ℕ) (boundary : Bytes) (pieces : List Bytes)
      (parts : List Part)
      → get boundary_option (P.options content_type) ≡ some (b ∷ boundary)
      → parse_all P pieces (P.start (b ∷ boundary) (max_body_bytes rules))
        ≡ some (form_callbacks parts)
      → All (IsAccepted rules P) parts
      → length (with_parts rules P new_reader.form parts).images ≤ rules.max_files
      → (read rules P content_type (map Chunk.received pieces)).0
        ≡ ok (with_parts rules P new_reader.form parts)
  unfolding read read_body or_abort form_of part_begin
  read-form_callbacks content_type b boundary pieces parts found parsed accepted room =
      let (t, (e, (done, same))) = feed_form parts new_reader.form new_reader refl accepted room in
      rw found
        (rw (read_pieces pieces _ new_reader t (form_callbacks parts) parsed e done) (rw same refl))
