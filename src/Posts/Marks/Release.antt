-- ===== src/Posts/Marks/Release.antt =====
-- All the marks of an account, or of a post, go at once: closing the account and deleting the post.
use udesa_x_posts_api.Common.{
  ℕ, suc, ◌+◌, ◌≡◌, is_some, Bool, false, ◌&&◌, not, List, arith, ◌==◌, inl, inr, Bool-cases,
}
use udesa_x_posts_api.Common.Int.{pos}
use udesa_x_posts_api.Common.Rows.{
  count, exists, update, delete, count-delete_apart, count-delete_all, count-delete_both,
  count-delete_le, count-agree, All-update, All-both,
}
use udesa_x_posts_api.Database.{PostRow}
use udesa_x_posts_api.Posts.{live_post}
use udesa_x_posts_api.Posts.Marks.{
  Marks, mark_of, mark_by, mark_pair, Matches, IsBare, AreTallied, once-shrink, known-update,
}

module _ (m : Marks) (posts : List PostRow) (es : List m.Row) where
  count-unmark_by :
      (u p : ℕ)
      → count (mark_of m p) (delete (mark_by m u) es) + count (mark_pair m u p) es
        ≡ count (mark_of m p) es
  count-unmark_by u p = omega (
    arith,
    count-delete_both (mark_of m p) (mark_by m u) es,
    count-agree (λ e. mark_of m p e && mark_by m u e) (mark_pair m u p) (λ e. ground arith) es,
  )

  kept-Matches :
      (p : ℕ) (r : PostRow)
      → Matches m es r
      → IsBare m es r
      → live_post p r ≡ false
      → Matches m (delete (mark_of m p) es) r
  kept-Matches p r h bare unreached = elim (Bool-cases (r.id == p)) [
    | inl same ↦ ground (arith, count-delete_all (mark_of m p) (mark_of m p) (λ e j. j) es)
    | inr other ↦
        ground (arith, count-delete_apart (mark_of m r.id) (mark_of m p) (λ e j. ground arith) es)
  ]

  module _ (f : PostRow → PostRow) (same_id : (r : PostRow) → (f r).id ≡ r.id) where
    -- The live post and all its marks go together.
    pub AreTallied-delete :
        (p : ℕ)
        → ((r : PostRow) → m.counter (f r) ≡ pos 0)
        → AreTallied m posts es
        → AreTallied m (update (live_post p) f posts) (delete (mark_of m p) es)
    AreTallied-delete p zeroed t = record {
      once = once-shrink m posts es (mark_of m p) t;
      known =
          known-update m posts es f same_id (live_post p) _
            (λ q. count-delete_le (mark_of m q) (mark_of m p) es) t;
      tallied =
          All-update (λ r. Matches m es r × IsBare m es r) _ (live_post p) f
            (λ r h i. ground (
              arith,
              same_id r,
              zeroed r,
              count-delete_all (mark_of m p) (mark_of m p) (λ e j. j) es,
            ))
            (λ r h i. kept-Matches p r h.0 h.1 i) posts (All-both _ _ posts t.tallied t.bare);
      bare =
          All-update (IsBare m es) _ (live_post p) f
            (λ r h i.
              ground (arith, same_id r, count-delete_all (mark_of m p) (mark_of m p) (λ e j. j) es))
            (λ r h i. ground (arith, count-delete_le (mark_of m r.id) (mark_of m p) es)) posts
            t.bare;
    }

    module _ (same_deleted : (r : PostRow) → (f r).deleted_at ≡ r.deleted_at) where
      -- Everything that one account left goes, and the live posts show it.
      pub AreTallied-release :
          (u : ℕ) (q : PostRow → Bool)
          → ((r : PostRow) → q r ≡ (exists (mark_pair m u r.id) es && not (is_some r.deleted_at)))
          → ((r : PostRow) (n : ℕ) → m.counter r ≡ pos (suc n) → m.counter (f r) ≡ pos n)
          → AreTallied m posts es
          → AreTallied m (update q f posts) (delete (mark_by m u) es)
      AreTallied-release u q reaches lowered t = record {
        once = once-shrink m posts es (mark_by m u) t;
        known =
            known-update m posts es f same_id q _
              (λ p. count-delete_le (mark_of m p) (mark_by m u) es) t;
        tallied =
            All-update (λ r. Matches m es r × IsBare m es r) _ q f
              (λ r h i. ground (
                arith,
                same_id r,
                reaches r,
                count-unmark_by u r.id,
                t.once u r.id,
                lowered r (count (mark_of m r.id) (delete (mark_by m u) es)),
              ))
              (λ r h i. ground (arith, reaches r, count-unmark_by u r.id, h.1)) posts
              (All-both _ _ posts t.tallied t.bare);
        bare =
            All-update (IsBare m es) _ q f
              (λ r h i. ground (
                arith,
                same_id r,
                same_deleted r,
                count-delete_le (mark_of m r.id) (mark_by m u) es,
              ))
              (λ r h i. ground (arith, count-delete_le (mark_of m r.id) (mark_by m u) es)) posts
              t.bare;
      }
