-- ===== src/Images/PostMedia.antt =====
-- The rows of the images of posts: app/repositories/post_media.py.
use udesa_x_posts_api.Common.{
  ℕ, suc, String, Bool, ◌&&◌, ◌||◌, not, List, [], ◌∷◌, ◌++◌, map, ◌==◌, ltb, if◌then◌else◌,
}
use udesa_x_posts_api.Common.Rows.{select, exists}
use udesa_x_posts_api.Common.Action.{Action, pure, gets, crash_if, modify, ◌>>=◌, ◌>>◌}
use udesa_x_posts_api.Database.{Db, MediaRow}
use udesa_x_posts_api.Posts.{post_exists}

pub record NewMedia : Type 0 where
  pub id : ℕ
  pub key : String
  pub mime_type : String
  pub size_bytes : ℕ

pub record StoredMedia : Type 0 where
  pub id : ℕ
  pub key : String
  pub position : ℕ

-- `enumerate(media)`: the rows of a post, from a position on.
abbrev pub media_rows : ℕ → ℕ → ℕ → List NewMedia → List MediaRow
media_rows now post i [] = []
media_rows now post i (m ∷ media) =
    record {
      id = m.id;
      post_id = post;
      position = i;
      s3_key = m.key;
      mime_type = m.mime_type;
      size_bytes = m.size_bytes;
      created_at = now;
    }
    ∷ media_rows now post (suc i) media

-- The primary key, `ck_post_media_position`, `uq_post_media_post_position` and the foreign key.
abbrev pub refuses_media : Db → MediaRow → Bool
refuses_media d r =
    ltb 3 r.position
    || (exists (λ (m : MediaRow). m.id == r.id) d.media
        || (exists (λ (m : MediaRow). m.post_id == r.post_id && m.position == r.position) d.media
            || not (post_exists r.post_id d)))

abbrev pub stored_media : MediaRow → StoredMedia
stored_media r = record { id = r.id; key = r.s3_key; position = r.position }

-- `PostMediaRepository.add`
unfoldable pub add_media : ℕ → ℕ → List NewMedia → Action Db (List StoredMedia)
add_media now post media = do
  refused ← gets (λ d. exists (refuses_media d) (media_rows now post 0 media))
  crash_if refused
  modify (λ d. record d { media = media_rows now post 0 media ++ d.media })
  pure (map stored_media (media_rows now post 0 media))

-- `ORDER BY position`
abbrev pub insert_media : MediaRow → List MediaRow → List MediaRow
insert_media r [] = r ∷ []
insert_media r (x ∷ xs) =
    let rest = insert_media r xs in if ltb x.position r.position then x ∷ rest else r ∷ x ∷ xs

unfoldable pub by_position : List MediaRow → List MediaRow
by_position [] = []
by_position (r ∷ rows) = insert_media r (by_position rows)

-- What `for_posts` gives for one of the posts.
unfoldable pub media_of : ℕ → Db → List StoredMedia
unfolding by_position
media_of post d =
    map stored_media (by_position (select (λ (r : MediaRow). r.post_id == post) d.media))
