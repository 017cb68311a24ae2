-- ===== src/AccountCounts.antt =====
-- AccountCountsService (app/services/account_counts.py).
pub mod Faithful
use udesa_x_posts_api.Common.{ℕ, Option, none, some}
use udesa_x_posts_api.Common.Int.{ℤ, pos}
use udesa_x_posts_api.Common.Action.{Action, pure, ◌>>=◌, ◌>>◌}
use udesa_x_posts_api.Models.{UserProfile}
use udesa_x_posts_api.Database.{Db}
use udesa_x_posts_api.Follows.{find_profile}
use udesa_x_posts_api.Posts.{count_by_author}

pub record AccountCounts : Type 0 where
  pub followers : ℤ
  pub posts : ℕ

unfoldable pub counts_from : ℕ → Option UserProfile → Action Db AccountCounts
counts_from u none = pure (record { followers = pos 0; posts = 0 })
counts_from u (some profile) = do
  posts ← count_by_author u
  pure (record { followers = profile.followers_count; posts = posts })

unfoldable pub counts_of : ℕ → Action Db AccountCounts
counts_of u = do profile ← find_profile u; counts_from u profile
