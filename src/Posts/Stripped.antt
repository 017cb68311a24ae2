-- ===== src/Posts/Stripped.antt =====
-- What `_strip_tags` leaves of a text.
use udesa_x_posts_api.Common.{
  ℕ, ◌≤◌, ◌≡◌, refl, Bool, true, false, ◌&&◌, ◌||◌, not, List, [], ◌∷◌, ◌==◌, arith, length,
}
use udesa_x_posts_api.Posts.Content.{closes, strip_from, strip_tags}

-- Whether a `<` is followed by a `>` anywhere in the text.
abbrev pub has_tag : List ℕ → Bool
has_tag [] = false
has_tag (c ∷ cs) = (c == 0x3c && closes cs) || has_tag cs

-- What is kept outside a tag comes from the text.
closes-strip_from :
    (inside : Bool) (cs : List ℕ) → closes cs ≡ false → closes (strip_from inside cs) ≡ false
unfolding strip_from
closes-strip_from inside [] h = refl
closes-strip_from true (c ∷ cs) h = closes-strip_from (not (c == 0x3e)) cs (ground arith)
closes-strip_from false (c ∷ cs) h =
    ground (arith, closes-strip_from true cs, closes-strip_from false cs)

strip_from-no_tag : (inside : Bool) (cs : List ℕ) → has_tag (strip_from inside cs) ≡ false
unfolding strip_from
strip_from-no_tag inside [] = refl
strip_from-no_tag true (c ∷ cs) = strip_from-no_tag (not (c == 0x3e)) cs
strip_from-no_tag false (c ∷ cs) =
    ground
      (arith, strip_from-no_tag true cs, strip_from-no_tag false cs, closes-strip_from false cs)

strip_from_plain : (cs : List ℕ) → has_tag cs ≡ false → strip_from false cs ≡ cs
unfolding strip_from
strip_from_plain [] h = refl
strip_from_plain (c ∷ cs) h = ground (arith, strip_from_plain cs)

length-strip_from : (inside : Bool) (cs : List ℕ) → length (strip_from inside cs) ≤ length cs
unfolding strip_from
length-strip_from inside [] = omega arith
length-strip_from true (c ∷ cs) = omega (arith, length-strip_from (not (c == 0x3e)) cs)
length-strip_from false (c ∷ cs) =
    ground (arith, length-strip_from true cs, length-strip_from false cs)

-- No tag is left in the text: nowhere does a `>` follow a `<`.
pub strip_tags-no_tag : (cs : List ℕ) → has_tag (strip_tags cs) ≡ false
unfolding strip_tags
strip_tags-no_tag cs = strip_from-no_tag false cs

-- A text without a tag stays as it is.
strip_tags_plain : (cs : List ℕ) → has_tag cs ≡ false → strip_tags cs ≡ cs
unfolding strip_tags
strip_tags_plain cs h = strip_from_plain cs h

-- The result has no tag left, never grows, and stripping it again changes nothing.
pub strip_tags-strip_tags :
    (cs : List ℕ)
    → (has_tag (strip_tags cs) ≡ false)
      × (length (strip_tags cs) ≤ length cs)
      × (strip_tags (strip_tags cs) ≡ strip_tags cs)
unfolding strip_tags strip_from
strip_tags-strip_tags cs =
    (strip_tags-no_tag cs, length-strip_from false cs, strip_tags_plain _ (strip_tags-no_tag cs))
