-- ===== src/Posts/Content.antt =====
-- The text of a post before it is stored: `_strip_tags` and `strip` (app/services/posts.py), over
-- code points.
use udesa_x_posts_api.Common.{
  ℕ, Bool, true, false, ◌&&◌, ◌||◌, not, List, [], ◌∷◌, ◌==◌, leb, if◌then◌else◌,
}
use mathlib.Core.List.{reverse}

-- Whether a tag that opens here is ever closed.
abbrev pub closes : List ℕ → Bool
closes [] = false
closes (c ∷ cs) = c == 0x3e || closes cs

-- `re.sub("<[^>]*>", "", …)`: the flag is set inside a tag, which runs to the first `>`. A `<`
-- that no `>` follows is no tag and stays.
unfoldable pub strip_from : Bool → List ℕ → List ℕ
strip_from inside [] = []
strip_from true (c ∷ cs) = strip_from (not (c == 0x3e)) cs
strip_from false (c ∷ cs) =
    if c == 0x3c && closes cs then strip_from true cs else c ∷ strip_from false cs

unfoldable pub strip_tags : List ℕ → List ℕ
unfolding strip_from
strip_tags = strip_from false

-- The white space of Python's `str.strip`.
abbrev pub is_space : ℕ → Bool
is_space c =
    (leb 9 c && leb c 13)
    || (leb 28 c && leb c 32)
    || c == 0x85
    || c == 0xa0
    || c == 0x1680
    || (leb 0x2000 c && leb c 0x200a)
    || c == 0x2028
    || c == 0x2029
    || c == 0x202f
    || c == 0x205f
    || c == 0x3000

unfoldable pub strip_left : List ℕ → List ℕ
strip_left [] = []
strip_left (c ∷ cs) = if is_space c then strip_left cs else c ∷ cs

unfoldable pub strip : List ℕ → List ℕ
unfolding strip_left
strip cs = reverse (strip_left (reverse (strip_left cs)))

unfoldable pub sanitize : List ℕ → List ℕ
unfolding strip_tags strip
sanitize content = strip (strip_tags content)
