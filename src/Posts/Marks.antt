-- ===== src/Posts/Marks.antt =====
-- Likes and retweets follow the same rules: rows that one account leaves on one post, and a column
-- of the post that counts them. These lemmas serve both.
pub mod Release
use native.Mathlib.Nat.{le_refl}
use udesa_x_posts_api.Common.{
  ℕ, suc, ◌+◌, ◌≤◌, ◌≡◌, is_some, Bool, true, false, ◌&&◌, not, List, ◌∷◌, arith, ◌==◌, inl, inr,
  if◌then◌else◌, Bool-cases,
}
use udesa_x_posts_api.Common.Lists.{All, All-weaken}
use udesa_x_posts_api.Common.Int.{ℤ, pos}
use udesa_x_posts_api.Common.Rows.{
  count, exists, update, delete, count-delete_within, count-delete_apart, count-delete_all,
  count-delete_both, count-delete_le, count-agree, count-update, All-update, All-both,
}
use udesa_x_posts_api.Database.{PostRow}
use udesa_x_posts_api.Posts.{post_id, live_post}

-- A kind of row, by whom it was left and on which post, and the column that counts it.
pub record Marks : Type 1 where
  pub Row : Type 0
  pub user_of : Row → ℕ
  pub post_of : Row → ℕ
  pub counter : PostRow → ℤ

module _ (m : Marks) where
  open m use {Row, user_of, post_of, counter}

  abbrev pub mark_of : ℕ → Row → Bool
  mark_of p e = post_of e == p

  abbrev pub mark_by : ℕ → Row → Bool
  mark_by u e = user_of e == u

  abbrev pub mark_pair : ℕ → ℕ → Row → Bool
  mark_pair u p e = user_of e == u && post_of e == p

  -- The column shows the number of rows.
  abbrev pub Matches : List Row → PostRow → Type 0
  Matches es r = counter r ≡ pos (count (mark_of r.id) es)

  -- A deleted post has no rows left.
  abbrev pub IsBare : List Row → PostRow → Type 0
  IsBare es r = is_some r.deleted_at ≡ true → count (mark_of r.id) es ≡ 0

  pub record AreTallied (posts : List PostRow) (es : List Row) : Type 0 where
    pub once : (u p : ℕ) → count (mark_pair u p) es ≤ 1
    pub known : (p : ℕ) → exists (post_id p) posts ≡ false → count (mark_of p) es ≡ 0
    pub tallied : All (Matches es) posts
    pub bare : All (IsBare es) posts

module _ (m : Marks) (posts : List PostRow) (es : List m.Row) where
  count-unmark_of :
      (u p q : ℕ)
      → count (mark_of m q) (delete (mark_pair m u p) es)
          + (if q == p then count (mark_pair m u p) es else 0)
        ≡ count (mark_of m q) es
  count-unmark_of u p q = elim (Bool-cases (q == p)) [
    | inl same ↦
        rw same (count-delete_within (mark_of m q) (mark_pair m u p) (λ r h. ground arith) es)
    | inr other ↦
        rw other (
          omega
            (arith, count-delete_apart (mark_of m q) (mark_pair m u p) (λ r h. ground arith) es))
  ]

  -- Rows that only go away keep the keys, and leave deleted posts bare.
  pub once-shrink :
      (q : m.Row → Bool)
      → AreTallied m posts es
      → (u p : ℕ) → count (mark_pair m u p) (delete q es) ≤ 1
  once-shrink q t u p = omega (arith, t.once u p, count-delete_le (mark_pair m u p) q es)

  -- A mark that is not there is not missed.
  pub AreTallied-absent :
      (u p : ℕ)
      → count (mark_pair m u p) es ≡ 0
      → AreTallied m posts es
      → AreTallied m posts (delete (mark_pair m u p) es)
  AreTallied-absent u p absent t = record {
    once = once-shrink (mark_pair m u p) t;
    known = λ q h. omega (arith, t.known q h, count-delete_le (mark_of m q) (mark_pair m u p) es);
    tallied =
        All-weaken (Matches m es) _ (λ r h. ground (arith, count-unmark_of u p r.id)) posts
          t.tallied;
    bare =
        All-weaken (IsBare m es) _
          (λ r h. ground (arith, count-delete_le (mark_of m r.id) (mark_pair m u p) es)) posts
          t.bare;
  }

  -- A new post, whose identifier no post has, has no marks.
  pub AreTallied-new_post :
      (r : PostRow)
      → exists (post_id r.id) posts ≡ false
      → m.counter r ≡ pos 0
      → AreTallied m posts es
      → AreTallied m (r ∷ posts) es
  AreTallied-new_post r fresh zero_count t = record {
    once = t.once;
    known = λ p h. ground (arith, t.known p);
    tallied = (ground (arith, t.known r.id fresh), t.tallied);
    bare = ((λ h. t.known r.id fresh), t.bare);
  }

  module _ (f : PostRow → PostRow) (same_id : (r : PostRow) → (f r).id ≡ r.id) where
    count-same_ids :
        (q : PostRow → Bool) (p : ℕ)
        → count (post_id p) (update q f posts) ≡ count (post_id p) posts
    count-same_ids q p = count-update (post_id p) q f (λ r h. ground (arith, same_id r)) posts

    pub known-update :
        (q : PostRow → Bool) (fs : List m.Row)
        → ((p : ℕ) → count (mark_of m p) fs ≤ count (mark_of m p) es)
        → AreTallied m posts es
        → (p : ℕ) → exists (post_id p) (update q f posts) ≡ false
        → count (mark_of m p) fs ≡ 0
    known-update q fs fewer t p h = ground (arith, t.known p, count-same_ids q p, fewer p)

    module _ (same_deleted : (r : PostRow) → (f r).deleted_at ≡ r.deleted_at) where
      -- A new mark on a post that is there and not deleted, and its column one higher.
      pub AreTallied-add :
          (e : m.Row)
          → ((r : PostRow) (n : ℕ) → m.counter r ≡ pos n → m.counter (f r) ≡ pos (suc n))
          → count (mark_pair m (m.user_of e) (m.post_of e)) es ≡ 0
          → exists (post_id (m.post_of e)) posts ≡ true
          → All (λ r. post_id (m.post_of e) r ≡ true → live_post (m.post_of e) r ≡ true) posts
          → AreTallied m posts es
          → AreTallied m (update (post_id (m.post_of e)) f posts) (e ∷ es)
      AreTallied-add e raised absent there live t = record {
        once = λ u p. ground (arith, t.once u p);
        known = λ p h. ground (arith, t.known p, count-same_ids (post_id (m.post_of e)) p);
        tallied =
            All-update (Matches m es) _ (post_id (m.post_of e)) f
              (λ r h i. ground (arith, same_id r, raised r (count (mark_of m r.id) es)))
              (λ r h i. ground arith) posts t.tallied;
        bare =
            All-update _ _ (post_id (m.post_of e)) f
              (λ r h i. ground (arith, same_id r, same_deleted r, h.1))
              (λ r h i. ground (arith, h.0)) posts (All-both _ _ posts t.bare live);
      }

      -- A mark less, and its column one lower.
      pub AreTallied-remove :
          (u p : ℕ)
          → ((r : PostRow) (n : ℕ) → m.counter r ≡ pos (suc n) → m.counter (f r) ≡ pos n)
          → count (mark_pair m u p) es ≡ 1
          → AreTallied m posts es
          → AreTallied m (update (post_id p) f posts) (delete (mark_pair m u p) es)
      AreTallied-remove u p lowered one t = record {
        once = once-shrink (mark_pair m u p) t;
        known =
            known-update (post_id p) _ (λ q. count-delete_le (mark_of m q) (mark_pair m u p) es) t;
        tallied =
            All-update (Matches m es) _ (post_id p) f
              (λ r h i. ground (
                arith,
                same_id r,
                count-unmark_of u p r.id,
                lowered r (count (mark_of m r.id) (delete (mark_pair m u p) es)),
              ))
              (λ r h i. ground (arith, count-unmark_of u p r.id)) posts t.tallied;
        bare =
            All-update (IsBare m es) _ (post_id p) f
              (λ r h i. ground (
                arith,
                same_id r,
                same_deleted r,
                count-delete_le (mark_of m r.id) (mark_pair m u p) es,
              ))
              (λ r h i. ground (arith, count-delete_le (mark_of m r.id) (mark_pair m u p) es)) posts
              t.bare;
      }

      -- A change of other columns.
      pub AreTallied-same :
          (q : PostRow → Bool)
          → ((r : PostRow) → m.counter (f r) ≡ m.counter r)
          → AreTallied m posts es
          → AreTallied m (update q f posts) es
      AreTallied-same q same_counter t = record {
        once = t.once;
        known = known-update q es (λ p. le_refl _) t;
        tallied =
            All-update (Matches m es) _ q f (λ r h i. ground (arith, same_id r, same_counter r))
              (λ r h i. h) posts t.tallied;
        bare =
            All-update (IsBare m es) _ q f (λ r h i. ground (arith, same_id r, same_deleted r))
              (λ r h i. h) posts t.bare;
      }
