-- ===== src/Search/Excerpt.antt =====
-- What an excerpt holds (`snippet`, app/search.py).
use udesa_x_posts_api.Common.{
  ℕ, ◌+◌, ◌-◌, ◌≤◌, ◌<◌, ◌≡◌, refl, sym, ◌∙◌, Bool, false, ◌||◌, ◌&&◌, List, [], ◌∷◌, ◌++◌, arith,
  ltb, if◌then◌else◌, length, length-append,
}
use udesa_x_posts_api.Search.{
  slice, matches_of, excerpt_start, excerpt_end, ellipsis, append, visible_matches, render, snippet,
}
use udesa_x_posts_api.Search.Windows.{marked, plain, length-marked, length-slice}
use udesa_x_posts_api.Search.Visible.{
  within, is_match, IsSorted, AreAscending, visible-IsSorted, is_match-visible,
}
use udesa_x_posts_api.Search.Rendering.{
  shade, AreTidy, shade-append, append-AreTidy, render-AreTidy, shade-render,
}

-- The positions of the matches as the statement gives them: in order, each match inside the text.
abbrev pub ArePositions : ℕ → ℕ → ℕ → List ℕ → Type 0
ArePositions low total size [] = Unit
ArePositions low total size (p ∷ positions) =
    (low ≤ p) × (p + size ≤ total) × ArePositions p total size positions

matches-AreAscending :
    (low total size : ℕ) (positions : List ℕ)
    → ArePositions low total size positions
    → AreAscending low (matches_of size positions)
matches-AreAscending low total size [] h = tt
matches-AreAscending low total size (p ∷ positions) h =
    (h.0, matches-AreAscending p total size positions h.2)

abbrev pub mark_of : Bool → List ℕ
mark_of cut = if cut then ellipsis else []

module _ (content query positions : List ℕ) where
  abbrev pub matches : List (ℕ × ℕ)
  matches = matches_of (length query) positions

  abbrev pub start : ℕ
  start = excerpt_start content matches

  abbrev pub end : ℕ
  end = excerpt_end (length content) start

  -- The window of the text around the first match, each character marked where a match holds it,
  -- with an ellipsis on each side where the text goes on.
  abbrev pub excerpt : List (ℕ × Bool)
  excerpt =
      (plain false (mark_of (ltb 0 start))
        ++ marked (is_match matches) start (slice start end content))
      ++ plain false (mark_of (ltb end (length content)))

end_le : (total start : ℕ) → excerpt_end total start ≤ total
end_le total start = ground arith

start_le_end : (total start : ℕ) → (start ≤ total) → start ≤ excerpt_end total start
start_le_end total start h = ground arith

start_in :
    (content : List ℕ) (size : ℕ) (positions : List ℕ)
    → ArePositions 0 (length content) size positions
    → excerpt_start content (matches_of size positions) ≤ length content
start_in content size [] h = omega arith
start_in content size (p ∷ positions) h = ground (arith, h.1)

window_size :
    (total start : ℕ)
    → excerpt_end total start
        - start
        + ((if ltb 0 start then 1 else 0) + (if ltb (excerpt_end total start) total then 1 else 0))
      ≤ 160
window_size total start = ground arith

in_window :
    (start end i : ℕ) (m : Bool) → start ≤ i → i < end → m ≡ (false || (within i (start, end) && m))
in_window start end i m h k = ground arith

module _ (content query positions : List ℕ)
    (h : ArePositions 0 (length content) (length query) positions) where
  -- The segments of an excerpt hold the window of the text around the first match, with an ellipsis
  -- on each side where the text goes on, and exactly the characters that some match holds are
  -- highlighted: where the positions come in order and each match lies inside the text.
  pub shade-snippet : shade (snippet content query positions) ≡ excerpt content query positions
  unfolding snippet
  shade-snippet =
      let ms = matches content query positions in
      let a = start content query positions in
      let b = end content query positions in
      let vs = visible_matches a b [] ms in
      let before = append [] (mark_of (ltb 0 a)) false in
      let fits : b ≤ length content = end_le (length content) a in
      let ordered : a ≤ b =
        start_le_end (length content) a (start_in content (length query) positions h) in
      let ascending = matches-AreAscending 0 (length content) (length query) positions h in
      let sorted : IsSorted a b vs = visible-IsSorted a b 0 [] ms ordered tt ascending in
      let same : (i : ℕ) → a ≤ i → i < b → is_match ms i ≡ is_match vs i = λ i l k.
        in_window a b i (is_match ms i) l k ∙ sym (is_match-visible a b 0 i [] ms tt ascending) in
      shade-append (render content b before a vs) (mark_of (ltb b (length content))) false
      ∙ (rw (shade-render content b (is_match ms) before a vs sorted fits same)
          (rw (shade-append [] (mark_of (ltb 0 a)) false) refl))

  length-excerpt : length (excerpt content query positions) ≤ 160
  length-excerpt =
      let a = start content query positions in
      let b = end content query positions in
      let window = marked (is_match (matches content query positions)) a (slice a b content) in
      let first = plain false (mark_of (ltb 0 a)) in
      let last = plain false (mark_of (ltb b (length content))) in
      let sizes : length window ≡ b - a =
        length-marked (is_match (matches content query positions)) a (slice a b content)
        ∙ length-slice a b content
            (start_le_end (length content) a (start_in content (length query) positions h))
            (end_le (length content) a) in
      let mark_size : (c : Bool) → length (plain false (mark_of c)) ≡ (if c then 1 else 0) =
        λ c. ground arith in
      omega (
        arith,
        length-append (first ++ window) last,
        length-append first window,
        mark_size (ltb 0 a),
        mark_size (ltb b (length content)),
        window_size (length content) a,
      )

  -- An excerpt shows at most 160 characters, its ellipses included, in segments of which none is
  -- empty and each is highlighted otherwise than the one before it: where the positions come in
  -- order and each match lies inside the text.
  pub snippet_bounds :
      (length (shade (snippet content query positions)) ≤ 160)
      × AreTidy (snippet content query positions)
  unfolding snippet
  snippet_bounds =
      let ms = matches content query positions in
      let a = start content query positions in
      let b = end content query positions in
      let before = append [] (mark_of (ltb 0 a)) false in
      let vs = visible_matches a b [] ms in
      (
        rw shade-snippet length-excerpt,
        append-AreTidy (render content b before a vs) (mark_of (ltb b (length content))) false
            (render-AreTidy content b before a vs (append-AreTidy [] (mark_of (ltb 0 a)) false tt)),
      )
