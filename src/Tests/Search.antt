-- ===== src/Tests/Search.antt =====
-- A search for `ana` among posts, where a pattern is met by the text that it writes out.
use udesa_x_posts_api.Common.{
  ℕ, ◌≡◌, refl, none, Bool, true, false, ◌||◌, List, [], ◌∷◌, ◌==◌, if◌then◌else◌, arith,
}
use udesa_x_posts_api.Database.{Db, PostLanguage}
use udesa_x_posts_api.Posts.{new_post}
use udesa_x_posts_api.Images.{same_bytes, starts_with}
use udesa_x_posts_api.Search.{snippet}
use udesa_x_posts_api.Search.Rendering.{shade}
use udesa_x_posts_api.Search.Excerpt.{excerpt, shade-snippet}
use udesa_x_posts_api.Search.Posts.{percent}
use udesa_x_posts_api.Tests.{at, empty, ana_row, bruno_row}

-- `banana`, whose two matches of `ana` overlap.
abbrev banana : List ℕ
banana = 0x62 ∷ 0x61 ∷ 0x6e ∷ 0x61 ∷ 0x6e ∷ 0x61 ∷ []

abbrev query : List ℕ
query = 0x61 ∷ 0x6e ∷ 0x61 ∷ []

two_segments :
    snippet banana query (1 ∷ 3 ∷ [])
    ≡ record { text = 0x62 ∷ []; highlighted = false }
      ∷ record { text = 0x61 ∷ 0x6e ∷ 0x61 ∷ 0x6e ∷ 0x61 ∷ []; highlighted = true }
      ∷ []
unfolding snippet
two_segments = refl

shade-snippet_example :
    shade (snippet banana query (1 ∷ 3 ∷ [])) ≡ excerpt banana query (1 ∷ 3 ∷ [])
shade-snippet_example =
    shade-snippet banana query (1 ∷ 3 ∷ [])
      (omega arith, omega arith, (omega arith, omega arith, tt))

abbrev contains : List ℕ → List ℕ → Bool
contains [] part = starts_with [] part
contains (c ∷ text) part = starts_with (c ∷ text) part || contains text part

abbrev without_last : List ℕ → List ℕ
without_last [] = []
without_last (c ∷ []) = []
without_last (c ∷ d ∷ cs) = c ∷ without_last (d ∷ cs)

abbrev meets : List ℕ → List ℕ → Bool
meets text [] = same_bytes text []
meets text (c ∷ pattern) =
    if c == percent then contains text (without_last pattern) else same_bytes text (c ∷ pattern)

abbrev posted : Db
posted = record empty {
  profiles = ana_row ∷ bruno_row ∷ [];
  posts = new_post (at 7) 1 banana PostLanguage.en none ∷ [];
}
