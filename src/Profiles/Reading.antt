-- ===== src/Profiles/Reading.antt =====
-- Who may list the posts of a profile: the rule of the service is that of the statement.
use udesa_x_posts_api.Common.{
  ℕ, ◌≡◌, refl, Option, none, some, is_some, Bool, true, false, ◌&&◌, ◌||◌, not, ◌==◌, arith,
  Bool-cases, inl, inr, ap, sym, ==→eq,
}
use udesa_x_posts_api.Common.Rows.{find, exists, find-holds}
use udesa_x_posts_api.Common.Action.{Result, ok, problem, crash}
use udesa_x_posts_api.Common.Action.Rules.{
  Post, post_call, post_read, post_need, post_refuse, post_check, post_if, post_pure, post_raise,
  post_modify, post_gets,
}
use udesa_x_posts_api.Models.{Account, UserProfile}
use udesa_x_posts_api.Models.Equality.{is_protected}
use udesa_x_posts_api.Database.{Db, UserProfileRow}
use udesa_x_posts_api.Follows.{
  profile_id, pair_of, live_profile, to_profile, ensure_profile, insert_profile, find_profile,
  profile_is_deleted, create_profile_if_missing, is_following,
}
use udesa_x_posts_api.Blocks.{has_blocked}
use udesa_x_posts_api.Posts.{visible_to, blocked_either_way}
use udesa_x_posts_api.Pagination.Orders.{FeedCursor}
use udesa_x_posts_api.Profiles.{
  UserDirectory, Lookup, blocked_between, copy_account, or_copy, visible_target, posts_of,
}

post_any : {S A : Type 0} (r : Result A) (s : S) → Post (λ _ _. Unit {0}) (r, s)
post_any (ok a) s = record { holds = tt }
post_any (problem e) s = record { holds = tt }
post_any crash s = record { holds = tt }

-- A profile that is found is that of a row of its account, which is not closed.
record IsRowOf (user : ℕ) (target : UserProfile) (d : Db) (r : UserProfileRow) : Type 0 where
  found : find (profile_id user) d.profiles ≡ some r
  open_row : is_some r.deleted_at ≡ false
  same : target.visibility ≡ r.visibility

-- The target of a call: its row, and no block between it and the viewer.
abbrev IsTarget : ℕ → ℕ → UserProfile → Db → Type 0
IsTarget user viewer target d =
    ((r : UserProfileRow) × IsRowOf user target d r) × (blocked_either_way viewer user d ≡ false)

some_inj : (x y : UserProfile) → some x ≡ some y → x ≡ y
some_inj x y h = cc

never_of : {A : Type 0} {t : UserProfile} → none ≡ some t → A
never_of h = cc

row_of :
    (user : ℕ) (d : Db) (o : Option UserProfileRow) (target : UserProfile)
    → find (profile_id user) d.profiles ≡ o
    → live_profile o ≡ some target
    → (r : UserProfileRow) × IsRowOf user target d r
unfolding live_profile to_profile
row_of user d none target e h = cc
row_of user d (some r) target e h = elim (Bool-cases (is_some r.deleted_at)) [
  | inl closed ↦ never_of (rw closed at h)
  | inr still ↦
      let same : some (to_profile r) ≡ some target = rw still at h in
      (
        r,
        record {
          found = e;
          open_row = still;
          same = ap (λ t. t.visibility) (sym (some_inj (to_profile r) target same));
        },
      )
]

insert_profile-blocks :
    (r : UserProfileRow) (d : Db) → Post (λ _ e. e.blocks ≡ d.blocks) (insert_profile r d)
unfolding insert_profile
insert_profile-blocks r d = post_read _ _ d (
    post_if _ _ _ d (λ there. post_pure tt d refl)
      λ new. post_read _ _ d (post_check _ _ d λ free. post_modify _ d refl))

module _ (user viewer : ℕ) where
  copy_account-IsTarget :
      (answer : Lookup) (d : Db)
      → blocked_either_way viewer user d ≡ false
      → Post (λ found e. IsTarget user viewer found.0 e) (copy_account user answer d)
  unfolding copy_account create_profile_if_missing find_profile
  copy_account-IsTarget Lookup.unavailable d free = post_raise _ d
  copy_account-IsTarget (Lookup.answered none) d free = post_raise _ d
  copy_account-IsTarget (Lookup.answered (some details)) d free =
      post_call
        (λ created e.
          (live_profile (find (profile_id user) e.profiles) ≡ created) × (e.blocks ≡ d.blocks))
        _ _ d
        (post_call (λ _ e. e.blocks ≡ d.blocks) _ _ d (insert_profile-blocks _ d)
          (λ _ e same. post_gets _ e (refl, same)))
        (λ created e known. post_need _ _ _ e (λ target there.
          post_pure _ e (row_of user e _ target refl (rw there at known.0), rw known.1 free)))

  or_copy-IsTarget :
      (directory : UserDirectory) (o : Option UserProfile) (d : Db)
      → live_profile (find (profile_id user) d.profiles) ≡ o
      → blocked_either_way viewer user d ≡ false
      → Post (λ found e. IsTarget user viewer found.0 e) (or_copy directory user o d)
  unfolding or_copy profile_is_deleted
  or_copy-IsTarget directory (some target) d known free =
      post_pure _ d (row_of user d _ target refl known, free)
  or_copy-IsTarget directory none d known free =
      post_read _ _ d
        (post_refuse _ _ _ d (λ still. copy_account-IsTarget (directory.details_of user) d free))

both_ways :
    (gone blocked hidden own owned follows : Bool)
    → gone ≡ false
    → blocked ≡ false
    → (hidden && (not own && not follows)) ≡ false
    → own ≡ owned
    → ((not gone || false) && (not blocked && (not hidden || (owned || follows)))) ≡ true
both_ways gone blocked hidden own owned follows a b c e = ground (arith, a, b, c, e)

readable :
    (user viewer : ℕ) (target : UserProfile) (e : Db)
    → IsTarget user viewer target e
    → (is_protected target.visibility
        && (not (viewer == user) && not (exists (pair_of viewer user) e.follows)))
      ≡ false
    → (r : UserProfileRow) × ((find (profile_id user) e.profiles ≡ some r)
        × (visible_to viewer r false e ≡ true))
unfolding visible_to
readable user viewer target e ((r, row), free) allowed =
    let same : r.id ≡ user =
      ==→eq r.id user (find-holds (profile_id user) e.profiles r row.found) in
    let private =
      is_protected r.visibility
      && (not (viewer == user) && not (exists (pair_of viewer user) e.follows)) in
    let allowed_row : private ≡ false = rw row.same at allowed in
    (
      r,
      (
        row.found,
        rw (same, visible_to)
            (both_ways (is_some r.deleted_at) (blocked_either_way viewer user e)
              (is_protected r.visibility) (viewer == user) (user == viewer)
              (exists (pair_of viewer user) e.follows) row.open_row free allowed_row
              (ground arith)),
      ),
    )

module _ (directory : UserDirectory) (user : ℕ) (viewer : Account) where
  visible_target-IsTarget :
      (d : Db)
      → Post (λ found e. IsTarget user viewer.id found.0 e) (visible_target directory user viewer d)
  unfolding visible_target blocked_between has_blocked find_profile
  visible_target-IsTarget d =
      post_call (λ _ _. Unit {0}) _ _ d
        (post_any (ensure_profile viewer d).0 (ensure_profile viewer d).1)
        (λ p d1 known.
          post_call (λ blocked e. (e ≡ d1) × (blocked_either_way viewer.id user e ≡ blocked)) _ _ d1
            (post_read _ _ d1 (post_read _ _ d1 (post_pure _ d1 (refl, ground arith))))
            (λ blocked d2 free. post_refuse _ _ _ d2 (λ open_to. post_read _ _ d2 (
              or_copy-IsTarget user viewer.id directory _ d2 refl
                (ground (arith, free.1, open_to))))))

  -- Whenever the posts of a profile are listed, the rule that the statements apply to each post,
  -- `visible_to`, lets the viewer read this account: it is there and open, no block separates the
  -- two, and it is public, the viewer's own, or one that the viewer follows.
  pub posts_of-visible_to :
      (cursor : Option FeedCursor) (d : Db)
      → Post
          (λ _ e.
            (r : UserProfileRow) × ((find (profile_id user) e.profiles ≡ some r)
              × (visible_to viewer.id r false e ≡ true)))
          (posts_of directory user viewer cursor d)
  unfolding posts_of is_following
  posts_of-visible_to cursor d =
      post_call (λ found e. IsTarget user viewer.id found.0 e) _ _ d (visible_target-IsTarget d)
        (λ found e target. post_read _ _ e (
          post_refuse _ _ _ e
            (λ allowed. post_gets _ e (readable user viewer.id found.0 e target allowed))))
