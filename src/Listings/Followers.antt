-- ===== src/Listings/Followers.antt =====
-- A reader who walks the list of followers sees the followers, and as many as the profile counts.
use udesa_x_posts_api.Common.{
  ℕ, ◌≤◌, ◌<◌, ◌≡◌, refl, sym, ◌∙◌, Bool, true, List, [], ◌∷◌, map, ◌==◌, arith, Bool-cases, inl,
  inr, length,
}
use udesa_x_posts_api.Common.Lists.{All, All-weaken}
use udesa_x_posts_api.Common.Rows.{select, count, exists}
use udesa_x_posts_api.Database.{Db, FollowRow}
use udesa_x_posts_api.Follows.{profile_id, pair_of}
use udesa_x_posts_api.Pagination.Sorted.{AreApart, AreDistinct}
use udesa_x_posts_api.Pagination.Lists.{never, All-select_of}
use udesa_x_posts_api.Graph.{IsConsistent, AreKeyed, follows_from, follows_to}
use udesa_x_posts_api.Listings.{AccountRow, joined, newest_account, follower_rows}

pub select-none : {A : Type 0} (p : A → Bool) (xs : List A) → count p xs ≡ 0 → select p xs ≡ []
select-none p [] h = refl
select-none p (x ∷ xs) h = elim (Bool-cases (p x)) [
  | inl keeps ↦ never (ground (arith, h, keeps))
  | inr drops ↦ rw drops (select-none p xs (ground (arith, h, drops)))
]

select-one :
    {A : Type 0} (p : A → Bool) (xs : List A) → count p xs ≡ 1 → (x : A) × (select p xs ≡ x ∷ [])
select-one p [] h = never (omega (arith, h))
select-one p (x ∷ xs) h = elim (Bool-cases (p x)) [
  | inl keeps ↦
      let rest : select p xs ≡ [] = select-none p xs (ground (arith, h, keeps)) in
      (x, rw keeps (rw rest refl))
  | inr drops ↦ let (y, one) = select-one p xs (ground (arith, h, drops)) in (y, rw drops one)
]

abbrev pub ids_of : List AccountRow → List ℕ
ids_of = map (λ r. r.id)

abbrev pub names : ℕ → ℕ → Bool
names a b = b == a

module _ (d : Db) (k : AreKeyed d.profiles d.follows) where
  joined-ids :
      (fs : List FollowRow)
      → All (λ f. exists (profile_id f.follower_id) d.profiles ≡ true) fs
      → ids_of (joined (λ f. f.follower_id) (λ f. f.created_at) fs d) ≡ map (λ f. f.follower_id) fs
  joined-ids [] h = refl
  joined-ids (f ∷ fs) h =
      let (u, one) =
        select-one (profile_id f.follower_id) d.profiles
          (ground (arith, k.profile_once f.follower_id, h.0)) in
      rw one (rw (joined-ids fs h.1) refl)

each_from : (fs : List FollowRow) → All (λ f. 0 < count (follows_from f.follower_id) fs) fs
each_from [] = tt
each_from (f ∷ fs) = (ground arith, All-weaken _ _ (λ g h. ground (arith, h)) fs (each_from fs))

known_one :
    (d : Db)
    → AreKeyed d.profiles d.follows
    → (f : FollowRow) → 0 < count (follows_from f.follower_id) d.follows
    → exists (profile_id f.follower_id) d.profiles ≡ true
known_one d k f h = elim (Bool-cases (exists (profile_id f.follower_id) d.profiles)) [
  | inl there ↦ there
  | inr missing ↦ never (omega (arith, h, k.follower_known f.follower_id missing))
]

followers_have_profiles :
    (d : Db)
    → AreKeyed d.profiles d.follows
    → All (λ f. exists (profile_id f.follower_id) d.profiles ≡ true) d.follows
followers_have_profiles d k =
    All-weaken _ _ (λ f h. known_one d k f h) d.follows (each_from d.follows)

pub count_ids :
    (a : ℕ) (rows : List AccountRow) → count (λ r. r.id == a) rows ≡ count (names a) (ids_of rows)
count_ids a [] = refl
count_ids a (r ∷ rows) = ground (arith, count_ids a rows)

count_follower :
    (a user : ℕ) (fs : List FollowRow)
    → count (names a) (map (λ f. f.follower_id) (select (follows_to user) fs))
      ≡ count (pair_of a user) fs
count_follower a user [] = refl
count_follower a user (f ∷ fs) = elim (Bool-cases (follows_to user f)) [
  | inl here ↦ rw here (ground (arith, here, count_follower a user fs))
  | inr other ↦ rw other (ground (arith, other, count_follower a user fs))
]

pub length-ids : (rows : List AccountRow) → length (ids_of rows) ≡ length rows
length-ids [] = refl
length-ids (r ∷ rows) = rw (length-ids rows) refl

length-followers :
    (user : ℕ) (fs : List FollowRow)
    → length (map (λ f. f.follower_id) (select (follows_to user) fs)) ≡ count (follows_to user) fs
length-followers user [] = refl
length-followers user (f ∷ fs) = elim (Bool-cases (follows_to user f)) [
  | inl here ↦ rw here (ground (arith, length-followers user fs))
  | inr other ↦ rw other (ground (arith, length-followers user fs))
]

apart_of :
    (x : AccountRow) (xs : List AccountRow)
    → count (λ r. r.id == x.id) xs ≡ 0
    → All (AreApart newest_account x) xs
apart_of x [] h = tt
apart_of x (y ∷ ys) h = ((ground (arith, h), ground (arith, h)), apart_of x ys (ground (arith, h)))

pub distinct_of :
    (rows : List AccountRow)
    → ((a : ℕ) → count (λ r. r.id == a) rows ≤ 1)
    → AreDistinct newest_account rows
distinct_of [] h = tt
distinct_of (x ∷ xs) h =
    (apart_of x xs (ground (arith, h x.id)), distinct_of xs (λ a. ground (arith, h a)))

pub count_every : {A : Type 0} (xs : List A) → count (λ x. true) xs ≡ length xs
count_every [] = refl
count_every (x ∷ xs) = ground (arith, count_every xs)

module _ (user : ℕ) (d : Db) (v : IsConsistent d) where
  follower_ids :
      ids_of (follower_rows user d) ≡ map (λ f. f.follower_id) (select (follows_to user) d.follows)
  unfolding follower_rows
  follower_ids =
      joined-ids d v.keyed (select (follows_to user) d.follows)
        (All-select_of _ (follows_to user) d.follows (followers_have_profiles d v.keyed))

  pub count-follower_rows :
      (a : ℕ) → count (λ r. r.id == a) (follower_rows user d) ≡ count (pair_of a user) d.follows
  count-follower_rows a =
      count_ids a (follower_rows user d) ∙ (rw follower_ids (count_follower a user d.follows))

  pub length-follower_rows : length (follower_rows user d) ≡ count (follows_to user) d.follows
  length-follower_rows =
      sym (length-ids (follower_rows user d)) ∙ (rw follower_ids (length-followers user d.follows))
