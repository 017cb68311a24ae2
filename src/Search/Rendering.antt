-- ===== src/Search/Rendering.antt =====
-- The segments of an excerpt (`append` and the second loop of `snippet`, app/search.py).
use udesa_x_posts_api.Common.{
  ℕ, ◌≤◌, ◌<◌, ◌≡◌, refl, sym, ◌∙◌, ap, Bool, true, false, not, List, [], ◌∷◌, ◌++◌, arith, length,
}
use mathlib.Core.List.{append-nil, append_assoc}
use udesa_x_posts_api.Search.{SnippetSegment, slice, add_segment, append, render}
use udesa_x_posts_api.Search.Windows.{marked, plain, marked-plain, marked-slice, length-slice}
use udesa_x_posts_api.Search.Visible.{is_match, IsSorted}

-- The characters of some segments, each with its mark.
abbrev pub shade : List SnippetSegment → List (ℕ × Bool)
shade [] = []
shade (s ∷ segments) = plain s.highlighted s.text ++ shade segments

-- No segment is empty, and each is marked otherwise than the one before it.
abbrev Alternate : Bool → List SnippetSegment → Type 0
Alternate b [] = Unit
Alternate b (s ∷ segments) =
    (s.highlighted ≡ not b) × (0 < length s.text) × Alternate s.highlighted segments

abbrev pub AreTidy : List SnippetSegment → Type 0
AreTidy [] = Unit
AreTidy (s ∷ segments) = (0 < length s.text) × Alternate s.highlighted segments

plain-append : (b : Bool) (xs ys : List ℕ) → plain b (xs ++ ys) ≡ plain b xs ++ plain b ys
plain-append b [] ys = refl
plain-append b (x ∷ xs) ys = rw (plain-append b xs ys) refl

abbrev segment : List ℕ → Bool → SnippetSegment
segment text highlighted = record { text = text; highlighted = highlighted }

shade_joined :
    (b : Bool) (xs ys : List ℕ) → plain b (xs ++ ys) ++ [] ≡ (plain b xs ++ []) ++ plain b ys
shade_joined b xs ys = simp (append-nil, plain-append b xs ys)

shade_apart :
    (a b : Bool) (xs ys : List ℕ)
    → plain a xs ++ (plain b ys ++ []) ≡ (plain a xs ++ []) ++ plain b ys
shade_apart a b xs ys = simp append-nil

shade_last :
    (a b : Bool) (xs ys : List ℕ)
    → shade (add_segment (segment xs a ∷ []) ys b) ≡ shade (segment xs a ∷ []) ++ plain b ys
shade_last true true xs ys = shade_joined true xs ys
shade_last true false xs ys = shade_apart true false xs ys
shade_last false true xs ys = shade_apart false true xs ys
shade_last false false xs ys = shade_joined false xs ys

shade-add :
    (segments : List SnippetSegment) (text : List ℕ) (b : Bool)
    → shade (add_segment segments text b) ≡ shade segments ++ plain b text
shade-add [] text b = append-nil (plain b text)
shade-add (s ∷ []) text b = shade_last s.highlighted b s.text text
shade-add (s ∷ t ∷ segments) text b =
    rw (shade-add (t ∷ segments) text b)
      (sym (append_assoc (plain s.highlighted s.text) (shade (t ∷ segments)) (plain b text)))

pub shade-append :
    (segments : List SnippetSegment) (text : List ℕ) (b : Bool)
    → shade (append segments text b) ≡ shade segments ++ plain b text
unfolding append
shade-append segments [] b = sym (append-nil (shade segments))
shade-append segments (c ∷ text) b = shade-add segments (c ∷ text) b

positive-append : (xs ys : List ℕ) → 0 < length xs → 0 < length (xs ++ ys)
positive-append [] ys h = elim h [ ]
positive-append (x ∷ xs) ys h = omega arith

Alternate-last :
    (p a b : Bool) (xs ys : List ℕ)
    → a ≡ not p
    → 0 < length xs
    → 0 < length ys
    → Alternate p (add_segment (segment xs a ∷ []) ys b)
Alternate-last p true true xs ys e m n = (e, positive-append xs ys m, tt)
Alternate-last p true false xs ys e m n = (e, m, (refl, n, tt))
Alternate-last p false true xs ys e m n = (e, m, (refl, n, tt))
Alternate-last p false false xs ys e m n = (e, positive-append xs ys m, tt)

add-Alternate :
    (b : Bool) (s : SnippetSegment) (segments : List SnippetSegment) (text : List ℕ) (h : Bool)
    → Alternate b (s ∷ segments)
    → 0 < length text
    → Alternate b (add_segment (s ∷ segments) text h)
add-Alternate b s [] text h a n = Alternate-last b s.highlighted h s.text text a.0 a.1 n
add-Alternate b s (t ∷ segments) text h a n =
    (a.0, a.1, add-Alternate s.highlighted t segments text h a.2 n)

AreTidy-last :
    (a b : Bool) (xs ys : List ℕ)
    → 0 < length xs
    → 0 < length ys
    → AreTidy (add_segment (segment xs a ∷ []) ys b)
AreTidy-last true true xs ys m n = (positive-append xs ys m, tt)
AreTidy-last true false xs ys m n = (m, (refl, n, tt))
AreTidy-last false true xs ys m n = (m, (refl, n, tt))
AreTidy-last false false xs ys m n = (positive-append xs ys m, tt)

add-AreTidy :
    (s : SnippetSegment) (segments : List SnippetSegment) (text : List ℕ) (h : Bool)
    → AreTidy (s ∷ segments)
    → 0 < length text
    → AreTidy (add_segment (s ∷ segments) text h)
add-AreTidy s [] text h a n = AreTidy-last s.highlighted h s.text text a.0 n
add-AreTidy s (t ∷ segments) text h a n = (a.0, add-Alternate s.highlighted t segments text h a.1 n)

pub append-AreTidy :
    (segments : List SnippetSegment) (text : List ℕ) (h : Bool)
    → AreTidy segments
    → AreTidy (append segments text h)
unfolding append
append-AreTidy segments [] h a = a
append-AreTidy [] (c ∷ text) h a = (omega arith, tt)
append-AreTidy (s ∷ segments) (c ∷ text) h a = add-AreTidy s segments (c ∷ text) h a (omega arith)

module _ (content : List ℕ) (end : ℕ) where
  pub render-AreTidy :
      (segments : List SnippetSegment) (position : ℕ) (vs : List (ℕ × ℕ))
      → AreTidy segments
      → AreTidy (render content end segments position vs)
  unfolding render
  render-AreTidy segments position [] a =
      append-AreTidy segments (slice position end content) false a
  render-AreTidy segments position (v ∷ vs) a =
      render-AreTidy
        (append (append segments (slice position v.0 content) false) (slice v.0 v.1 content) true)
        v.1 vs
        (append-AreTidy (append segments (slice position v.0 content) false) (slice v.0 v.1 content)
          true (append-AreTidy segments (slice position v.0 content) false a))

  sorted_bounds : (low : ℕ) (vs : List (ℕ × ℕ)) → IsSorted low end vs → low ≤ end
  sorted_bounds low [] s = s
  sorted_bounds low (v ∷ vs) s = omega (arith, sorted_bounds v.1 vs s.2)

  is_match-before :
      (low i : ℕ) (vs : List (ℕ × ℕ)) → IsSorted low end vs → i < low → is_match vs i ≡ false
  is_match-before low i [] s h = refl
  is_match-before low i (v ∷ vs) s h =
      rw (is_match-before v.1 i vs s.2 (omega arith)) (ground arith)

  -- The segments hold the rest of the window, marked where one of the parts holds the index.
  pub shade-render :
      (f : ℕ → Bool) (segments : List SnippetSegment) (position : ℕ) (vs : List (ℕ × ℕ))
      → IsSorted position end vs
      → end ≤ length content
      → ((i : ℕ) → position ≤ i → i < end → f i ≡ is_match vs i)
      → shade (render content end segments position vs)
        ≡ shade segments ++ marked f position (slice position end content)
  unfolding render
  shade-render f segments position [] s fits same =
      shade-append segments (slice position end content) false
      ∙ ap (λ t. shade segments ++ t)
          (sym (
            marked-plain f false position (slice position end content)
              (λ j a b. same j a (omega (arith, length-slice position end content s fits)))))
  shade-render f segments position (v ∷ vs) s fits same =
      let high : v.1 ≤ end = sorted_bounds v.1 vs s.2 in
      let before = slice position v.0 content in
      let inside = slice v.0 v.1 content in
      let first = append segments before false in
      let rest = marked f v.1 (slice v.1 end content) in
      let unmarked : marked f position before ≡ plain false before =
        marked-plain f false position before (λ j a b.
          let below : j < v.0 =
            omega (arith, length-slice position v.0 content s.0 (omega arith)) in
          same j a (omega arith)
          ∙ (rw (is_match-before v.1 j vs s.2 (omega arith)) (ground arith))) in
      let marks : marked f v.0 inside ≡ plain true inside = marked-plain f true v.0 inside (λ j a b.
        let below : j < v.1 =
          omega (arith, length-slice v.0 v.1 content (omega arith) (omega arith)) in
        same j (omega arith) (omega arith) ∙ (ground arith)) in
      let later : (i : ℕ) → v.1 ≤ i → i < end → f i ≡ is_match vs i =
        λ i a b. same i (omega arith) b ∙ (ground arith) in
      let whole : marked f position (slice position end content)
          ≡ plain false before ++ (plain true inside ++ rest) =
        marked-slice f position v.0 end content s.0 (omega arith) fits
        ∙ (rw (unmarked, marked-slice f v.0 v.1 end content (omega arith) high fits, marks) refl) in
      shade-render f (append first inside true) v.1 vs s.2 fits later
      ∙ (rw (shade-append first inside true, shade-append segments before false, whole)
          (simp append_assoc))
