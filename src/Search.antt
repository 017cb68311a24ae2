-- ===== src/Search.antt =====
-- Literal search terms and compact highlighted excerpts (app/search.py), over code points.
pub mod Windows
pub mod Visible
pub mod Rendering
pub mod Excerpt
pub mod Posts
pub mod Results
use udesa_x_posts_api.Common.{
  ℕ, ◌+◌, ◌-◌, Option, none, Bool, true, false, ◌||◌, not, List, [], ◌∷◌, map, ◌==◌, ltb, leb,
  if◌then◌else◌, length, take, drop, ◌++◌,
}
use udesa_x_posts_api.Common.Rows.{exists}
use udesa_x_posts_api.Common.Action.{ProblemError, Result, ok, problem}
use udesa_x_posts_api.Posts.Content.{strip}

pub record SnippetSegment : Type 0 where
  pub text : List ℕ
  pub highlighted : Bool

abbrev pub invalid_query : ProblemError
invalid_query = record {
  status = 422;
  code = "invalid-query";
  title = "Búsqueda inválida";
  detail = "Escribí al menos 3 caracteres";
  retry_after = none;
}

unfoldable pub normalize_query : List ℕ → Result (List ℕ)
unfolding strip
normalize_query value =
    let query = strip value in
    if ltb (length query) 3 || exists (λ c. c == 0) query then problem invalid_query else ok query

-- `content[a:b]`
abbrev pub slice : ℕ → ℕ → List ℕ → List ℕ
slice a b content = take (b - a) (drop a content)

abbrev pub max : ℕ → ℕ → ℕ
max a b = if ltb a b then b else a

abbrev pub min : ℕ → ℕ → ℕ
min a b = if ltb a b then a else b

-- `matches`: where each match starts and ends.
abbrev pub matches_of : ℕ → List ℕ → List (ℕ × ℕ)
matches_of size positions = map (λ p. (p, p + size)) positions

-- `start` and `end`
abbrev pub excerpt_start : List ℕ → List (ℕ × ℕ) → ℕ
excerpt_start content [] = 0
excerpt_start content (m ∷ matches) = if ltb 160 (length content) then m.0 - 40 else 0

abbrev pub window_end : ℕ → ℕ → ℕ
window_end size start = min size (start + 160 - (if ltb 0 start then 1 else 0))

abbrev pub excerpt_end : ℕ → ℕ → ℕ
excerpt_end size start = let end = window_end size start in if ltb end size then end - 1 else end

abbrev pub is_same : Bool → Bool → Bool
is_same true b = b
is_same false b = not b

-- `append`, which joins the text to the last segment where that one is highlighted alike.
abbrev pub add_segment : List SnippetSegment → List ℕ → Bool → List SnippetSegment
add_segment [] text highlighted = record { text = text; highlighted = highlighted } ∷ []
add_segment (s ∷ []) text highlighted =
    if is_same s.highlighted highlighted
    then record { text = s.text ++ text; highlighted = highlighted } ∷ []
    else s ∷ record { text = text; highlighted = highlighted } ∷ []
add_segment (s ∷ t ∷ segments) text highlighted = s ∷ add_segment (t ∷ segments) text highlighted

unfoldable pub append : List SnippetSegment → List ℕ → Bool → List SnippetSegment
append segments [] highlighted = segments
append segments (c ∷ text) highlighted = add_segment segments (c ∷ text) highlighted

-- One more visible match, which is joined to the last one where they touch.
unfoldable pub join_visible : List (ℕ × ℕ) → ℕ → ℕ → List (ℕ × ℕ)
join_visible [] left right = (left, right) ∷ []
join_visible (v ∷ []) left right =
    if leb left v.1 then (v.0, max v.1 right) ∷ [] else v ∷ (left, right) ∷ []
join_visible (v ∷ w ∷ visible) left right = v ∷ join_visible (w ∷ visible) left right

-- The first loop: the parts of the matches that the window shows.
unfoldable pub visible_matches : ℕ → ℕ → List (ℕ × ℕ) → List (ℕ × ℕ) → List (ℕ × ℕ)
unfolding join_visible
visible_matches start end visible [] = visible
visible_matches start end visible (m ∷ matches) =
    let left = max start m.0 in
    let right = min end m.1 in
    visible_matches start end (if leb right left then visible else join_visible visible left right)
      matches

-- The second loop and the text after it: the segments from a position to the end of the window.
unfoldable pub render : List ℕ → ℕ → List SnippetSegment → ℕ → List (ℕ × ℕ) → List SnippetSegment
unfolding append
render content end segments position [] = append segments (slice position end content) false
render content end segments position (v ∷ visible) =
    render content end
      (append (append segments (slice position v.0 content) false) (slice v.0 v.1 content) true) v.1
      visible

abbrev pub ellipsis : List ℕ
ellipsis = 0x2026 ∷ []

unfoldable pub snippet : List ℕ → List ℕ → List ℕ → List SnippetSegment
unfolding append visible_matches render
snippet content query match_positions =
    let matches = matches_of (length query) match_positions in
    let start = excerpt_start content matches in
    let end = excerpt_end (length content) start in
    append
      (render content end (append [] (if ltb 0 start then ellipsis else []) false) start
        (visible_matches start end [] matches))
      (if ltb end (length content) then ellipsis else []) false
