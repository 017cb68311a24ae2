-- ===== src/Follows/Charging.antt =====
-- How many follows of an account get through in a window of the limit.
use udesa_x_posts_api.Common.{
  ℕ, zero, suc, ◌-◌, ◌≡◌, refl, Option, true, false, ◌==◌, leb, List, [], ◌∷◌, take, drop, arith,
}
use udesa_x_posts_api.Common.Lists.{All}
use udesa_x_posts_api.Common.Action.{Result, ok, problem, crash, settle, transaction, ◌>>=◌}
use udesa_x_posts_api.Models.{Account, FollowRequest}
use udesa_x_posts_api.Database.{Db, Tick}
use udesa_x_posts_api.RateLimiter.{RateLimiter, RateKey, Session, on_db, hit, request, end_request}
use udesa_x_posts_api.Follows.Service.{too_many_follows, charge_follow, follow, follow_in_db}

-- What a limiter does for one key inside one window: it counts each mark, and says how many there are.
pub record Counts (R : RateLimiter) (key : RateKey) (window_seconds : ℕ) : Type 0 where
  pub used : R.State → ℕ
  pub hit_number : (s : R.State) → (R.hit key window_seconds s).0 ≡ suc (used s)
  pub hit_counted : (s : R.State) → used (R.hit key window_seconds s).1 ≡ suc (used s)

end_request-settle :
    {L A : Type 0} (r : Result A) (before after : Db) (marks : L)
    → end_request before r (record { db = after; marks = marks })
      ≡ ((settle before r after).0, record { db = (settle before r after).1; marks = marks })
unfolding end_request settle
end_request-settle (ok a) before after marks = refl
end_request-settle (problem e) before after marks = refl
end_request-settle crash before after marks = refl

module _ (follower : Account) where
  -- The follows of an account in turn, each in a transaction of its own and without a limit.
  abbrev pub unlimited : List (Tick × ℕ) → Db → List (Result (Option FollowRequest)) × Db
  unlimited [] d = ([], d)
  unlimited (a ∷ attempts) d =
      let (r, d') = transaction (follow_in_db a.0 follower a.1) d in
      let (answers, last) = unlimited attempts d' in (r ∷ answers, last)

  module _ (R : RateLimiter) (limit window_seconds : ℕ) where
    -- The same follows, as the service answers them.
    abbrev pub follow_all :
        List (Tick × ℕ) → Session R.State → List (Result (Option FollowRequest)) × Session R.State
    follow_all [] s = ([], s)
    follow_all (a ∷ attempts) s =
        let (r, s') = request (follow R limit window_seconds a.0 follower a.1) s in
        let (answers, last) = follow_all attempts s' in (r ∷ answers, last)

    abbrev pub IsTooMany : Result (Option FollowRequest) → Type 0
    IsTooMany r = (seconds : ℕ) × (r ≡ problem (too_many_follows limit seconds))

    module _ (law : Counts R (RateKey.follow_rate follower.id) window_seconds) where
      abbrev marked : R.State → R.State
      marked marks = (R.hit (RateKey.follow_rate follower.id) window_seconds marks).1

      -- How many marks the window has left.
      abbrev pub left : Session R.State → ℕ
      left s = limit - law.used s.marks

      follow-within :
          (t : Tick) (b : ℕ) (s : Session R.State)
          → (follower.id == b) ≡ false
          → leb (suc (law.used s.marks)) limit ≡ true
          → request (follow R limit window_seconds t follower b) s ≡ (
            (transaction (follow_in_db t follower b) s.db).0,
            record {
              db = (transaction (follow_in_db t follower b) s.db).1;
              marks = marked s.marks;
            },
          )
      unfolding request follow charge_follow hit on_db transaction ◌>>=◌
      follow-within t b s other within = rw other (
          rw (law.hit_number s.marks) (
            rw within (
              end_request-settle (follow_in_db t follower b s.db).0 s.db
                (follow_in_db t follower b s.db).1 (marked s.marks))))

      follow-over :
          (t : Tick) (b : ℕ) (s : Session R.State)
          → (follower.id == b) ≡ false
          → leb (suc (law.used s.marks)) limit ≡ false
          → request (follow R limit window_seconds t follower b) s ≡ (
            problem (
                too_many_follows limit
                  (R.seconds_left (RateKey.follow_rate follower.id) (marked s.marks))),
            record s { marks = marked s.marks },
          )
      unfolding request end_request follow charge_follow hit ◌>>=◌
      follow-over t b s other over = rw other (rw (law.hit_number s.marks) (rw over refl))

      -- The first answers, as many as the window has marks left, are those without a limit, and so is the
      -- database; the rest are refusals.
      pub record AreLimited (n : ℕ) (attempts : List (Tick × ℕ)) (s : Session R.State)
          : Type 0 where
        pub answered : take n (follow_all attempts s).0 ≡ (unlimited (take n attempts) s.db).0
        pub refused : All IsTooMany (drop n (follow_all attempts s).0)
        pub same_db : (follow_all attempts s).1.db ≡ (unlimited (take n attempts) s.db).1

      follow_all-AreLimited :
          (n : ℕ) (attempts : List (Tick × ℕ)) (s : Session R.State)
          → n ≡ left s
          → All (λ a. (follower.id == a.1) ≡ false) attempts
          → AreLimited n attempts s
      follow_all-AreLimited zero [] s e others = record {
        answered = refl;
        refused = tt;
        same_db = refl;
      }
      follow_all-AreLimited (suc n) [] s e others = record {
        answered = refl;
        refused = tt;
        same_db = refl;
      }
      follow_all-AreLimited zero (a ∷ attempts) s e (other, others) =
          let s' : Session R.State = record s { marks = marked s.marks } in
          let rest =
            follow_all-AreLimited zero attempts s' (omega (arith, e, law.hit_counted s.marks))
              others in
          let seconds = R.seconds_left (RateKey.follow_rate follower.id) (marked s.marks) in
          let step = follow-over a.0 a.1 s other (ground (arith, e)) in
          record {
            answered = refl;
            refused = rw step ((seconds, refl), rest.refused);
            same_db = rw step rest.same_db;
          }
      follow_all-AreLimited (suc n) (a ∷ attempts) s e (other, others) =
          let done = transaction (follow_in_db a.0 follower a.1) s.db in
          let s' : Session R.State = record { db = done.1; marks = marked s.marks } in
          let rest =
            follow_all-AreLimited n attempts s' (omega (arith, e, law.hit_counted s.marks))
              others in
          let step = follow-within a.0 a.1 s other (ground (arith, e)) in
          record {
            answered = rw (step, rest.answered) refl;
            refused = rw step rest.refused;
            same_db = rw step rest.same_db;
          }

      -- Of the follows of other accounts that an account asks for inside one window, as many as the
      -- window has marks left are answered as if there were no limit, and leave the database that they
      -- leave without one, and all others are refused as too many and leave nothing in it.
      pub follow-limited :
          (attempts : List (Tick × ℕ)) (s : Session R.State)
          → All (λ a. (follower.id == a.1) ≡ false) attempts
          → AreLimited (left s) attempts s
      follow-limited attempts s others = follow_all-AreLimited (left s) attempts s refl others
