-- ===== src/Posts/Tallies.antt =====
-- What must hold of the posts: their identifiers are distinct, and every post shows how many
-- likes, retweets and replies it has; a deleted one has no likes and no retweets.
use udesa_x_posts_api.Common.{
  ℕ, ◌≤◌, ◌≡◌, refl, true, false, some, none, Option, Bool, List, ◌∷◌, ◌==◌, arith,
}
use udesa_x_posts_api.Common.Lists.{All, All-weaken}
use udesa_x_posts_api.Common.Int.{pos, +ℤ_one}
use udesa_x_posts_api.Common.Rows.{count, exists, update, count-update, All-update}
use udesa_x_posts_api.Database.{Db, PostRow, LikeRow, RetweetRow}
use udesa_x_posts_api.Posts.{post_id, add_reply}
use udesa_x_posts_api.Posts.Marks.{Marks, AreTallied}

abbrev pub like_marks : Marks
like_marks = record {
  Row = LikeRow;
  user_of = λ r. r.user_id;
  post_of = λ r. r.post_id;
  counter = λ r. r.likes_count;
}

abbrev pub retweet_marks : Marks
retweet_marks = record {
  Row = RetweetRow;
  user_of = λ r. r.user_id;
  post_of = λ r. r.post_id;
  counter = λ r. r.retweets_count;
}

abbrev pub answers : Option ℕ → ℕ → Bool
answers none p = false
answers (some q) p = q == p

abbrev pub reply_to : ℕ → PostRow → Bool
reply_to p r = answers r.parent_id p

abbrev pub RepliesMatch : List PostRow → PostRow → Type 0
RepliesMatch all r = r.replies_count ≡ pos (count (reply_to r.id) all)

pub record AreThreaded (posts : List PostRow) : Type 0 where
  pub post_once : (p : ℕ) → count (post_id p) posts ≤ 1
  pub parent_known : (p : ℕ) → exists (post_id p) posts ≡ false → count (reply_to p) posts ≡ 0
  pub replies : All (RepliesMatch posts) posts

pub record IsTallied (d : Db) : Type 0 where
  pub threaded : AreThreaded d.posts
  pub likes : AreTallied like_marks d.posts d.likes
  pub retweets : AreTallied retweet_marks d.posts d.retweets

-- A change of other columns keeps the threads.
pub AreThreaded-same :
    (q : PostRow → Bool) (f : PostRow → PostRow) (posts : List PostRow)
    → ((r : PostRow) → (f r).id ≡ r.id)
    → ((r : PostRow) → (f r).parent_id ≡ r.parent_id)
    → ((r : PostRow) → (f r).replies_count ≡ r.replies_count)
    → AreThreaded posts
    → AreThreaded (update q f posts)
AreThreaded-same q f posts same_id same_parent same_count t =
    let same_posts =
      λ (p : ℕ). count-update (post_id p) q f (λ r h. ground (arith, same_id r)) posts in
    let same_replies =
      λ (p : ℕ). count-update (reply_to p) q f (λ r h. ground (arith, same_parent r)) posts in
    record {
      post_once = λ p. rw (same_posts p) (t.post_once p);
      parent_known = λ p h. ground (arith, same_posts p, same_replies p, t.parent_known p);
      replies =
          All-update (RepliesMatch posts) _ q f
            (λ r h i. ground (arith, same_id r, same_count r, same_replies r.id))
            (λ r h i. ground (arith, same_replies r.id)) posts t.replies;
    }

-- A new post of its own.
pub AreThreaded-post :
    (r : PostRow) (posts : List PostRow)
    → exists (post_id r.id) posts ≡ false
    → r.parent_id ≡ none
    → r.replies_count ≡ pos 0
    → AreThreaded posts
    → AreThreaded (r ∷ posts)
AreThreaded-post r posts fresh own zero_count t = record {
  post_once = λ p. ground (arith, t.post_once p);
  parent_known = λ p h. ground (arith, t.parent_known p);
  replies = (
    ground (arith, t.parent_known r.id fresh),
    All-weaken (RepliesMatch posts) _ (λ x h. ground arith) posts t.replies,
  );
}

-- A reply, and one more in the column of its parent.
pub AreThreaded-reply :
    (r : PostRow) (p : ℕ) (posts : List PostRow)
    → exists (post_id r.id) posts ≡ false
    → exists (post_id p) posts ≡ true
    → r.parent_id ≡ some p
    → r.replies_count ≡ pos 0
    → AreThreaded posts
    → AreThreaded (update (post_id p) add_reply (r ∷ posts))
AreThreaded-reply r p posts fresh there parent zero_count t =
    let same_posts =
      λ (q : ℕ). count-update (post_id q) (post_id p) add_reply (λ x h. refl) (r ∷ posts) in
    let same_replies =
      λ (q : ℕ). count-update (reply_to q) (post_id p) add_reply (λ x h. refl) (r ∷ posts) in
    record {
      post_once = λ q. ground (arith, t.post_once q, same_posts q);
      parent_known = λ q h. ground (arith, t.parent_known q, same_posts q, same_replies q);
      replies =
          All-update (λ x. x.replies_count ≡ pos (count (reply_to x.id) posts)) _ (post_id p)
            add_reply
            (λ x h i. ground (arith, same_replies x.id, +ℤ_one (count (reply_to x.id) posts)))
            (λ x h i. ground (arith, same_replies x.id)) (r ∷ posts)
            (ground (arith, t.parent_known r.id fresh), t.replies);
    }
