-- ===== src/RateLimiter/Window.antt =====
-- The counter on Redis is a counter of a fixed window.
use udesa_x_posts_api.Common.{
  ℕ, suc, ◌+◌, ◌≤◌, ◌<◌, ◌≡◌, refl, ◌∙◌, ap, Option, none, some, Bool, true, false, List, [], ◌∷◌,
  arith, if◌then◌else◌, ltb, ◌==◌, Bool-cases, inl, inr, ◌⊎◌,
}
use udesa_x_posts_api.Common.Action.{Result, ok, problem, crash}
use udesa_x_posts_api.RateLimiter.{RateKey}
use udesa_x_posts_api.RateLimiter.Redis.{
  RedisClient, Entry, IsRedis, live_at, increased, expired, marked, hit,
}

-- What the limiter promises: how many marks there are in the open window, and when it closes.
pub record OpenWindow : Type 0 where
  pub marks : ℕ
  pub closes : ℕ

abbrev pub fresh : ℕ → ℕ → OpenWindow
fresh t window = record { marks = 1; closes = t + window }

-- A mark at an instant: in the open window, or the first of a new one.
abbrev pub mark : ℕ → ℕ → Option OpenWindow → OpenWindow
mark t window none = fresh t window
mark t window (some w) =
    if ltb t w.closes then record { marks = suc w.marks; closes = w.closes } else fresh t window

-- The entry of the key stands for the window.
abbrev pub StandsFor : Entry → Option OpenWindow → Type 0
StandsFor e none = e ≡ none
StandsFor e (some w) = (e ≡ some (w.marks, some w.closes)) × (1 ≤ w.marks)

pub ok_injective : {m n : ℕ} → ok m ≡ ok n → n ≡ m
ok_injective h = cc

pub never : {A : Type 0} {n : ℕ} → crash ≡ ok n → A
never h = cc

pub second_mark : (m n : ℕ) → m ≡ suc n → 1 ≤ n → (m == 1) ≡ false
second_mark m n h k = ground arith

module _ (window t : ℕ) where
  -- The window is over, or it is open and the entry shows it.
  window_cases :
      (e : Entry) (win : Option OpenWindow)
      → StandsFor e win
      → ((live_at t e ≡ none) × (mark t window win ≡ fresh t window))
        ⊎ ((w : OpenWindow) × ((live_at t e ≡ some (w.marks, some w.closes))
              × ((mark t window win ≡ record { marks = suc w.marks; closes = w.closes })
                  × (1 ≤ w.marks))))
  window_cases e none stands = inl (rw stands refl, refl)
  window_cases e (some w) (stands, some_marks) = elim (Bool-cases (ltb t w.closes)) [
    | inl still ↦ inr (w, (rw stands (rw still refl), (rw still refl, some_marks)))
    | inr over ↦ inl (rw stands (rw over refl), rw over refl)
  ]

-- The numbers that a window gives to marks at these instants.
abbrev pub window_marks : ℕ → Option OpenWindow → List ℕ → List ℕ
window_marks window win [] = []
window_marks window win (t ∷ ts) =
    (mark t window win).marks ∷ window_marks window (some (mark t window win)) ts

abbrev pub and_later : Result ℕ → Option (List ℕ) → Option (List ℕ)
and_later (ok n) (some ns) = some (n ∷ ns)
and_later _ _ = none

pub and_later-some :
    (r : Result ℕ) (o : Option (List ℕ)) (counted : List ℕ)
    → and_later r o ≡ some counted
    → (n : ℕ) × ((rest : List ℕ) × ((r ≡ ok n) × ((o ≡ some rest) × (counted ≡ n ∷ rest))))
and_later-some (ok n) (some ns) counted h = (n, (ns, (refl, (refl, cc))))
and_later-some (ok n) none counted h = cc
and_later-some (problem e) o counted h = cc
and_later-some crash o counted h = cc

module _ (R : RedisClient) (k : RateKey) (window : ℕ) where
  -- The marks of a sequence of attempts, where every call returns.
  unfoldable pub hits : List ℕ → R.State → Option (List ℕ)
  hits [] s = some []
  hits (t ∷ ts) s = and_later (hit R t k window s).0 (hits ts (hit R t k window s).1)

module _ (R : RedisClient) (k : RateKey) (redis : IsRedis R k) (window : ℕ)
    (positive : 0 < window) where
  -- What a mark that is counted leaves, and the number that it returns.
  abbrev pub Marks : OpenWindow → Result ℕ × R.State → Type 0
  Marks w r = (n : ℕ) → r.0 ≡ ok n → (n ≡ w.marks) × StandsFor (redis.entry r.1) (some w)

  first_mark :
      (t : ℕ) (s : R.State) (answer : Bool × R.State)
      → R.expire t k window s ≡ answer
      → redis.entry s ≡ some (1, none)
      → Marks (fresh t window) (expired R 1 answer)
  first_mark t s (true, s2) e one n h =
      let kept = redis.expire_sets t window 1 none s positive one (ap (λ a. a.0) e) in
      (ok_injective h, (rw (ap (λ a. a.1) e) at kept, omega arith))
  first_mark t s (false, s2) e one n h = cc

  counted_mark :
      (t : ℕ) (s : R.State) (win : Option OpenWindow) (answer : Option ℕ × R.State)
      → StandsFor (redis.entry s) win
      → R.incr t k s ≡ answer
      → Marks (mark t window win) (marked R t k window answer)
  counted_mark t s win (none, s1) stands e = λ n h. never h
  counted_mark t s win (some m, s1) stands e =
      let now = increased (live_at t (redis.entry s)) in
      let value : m ≡ now.0 = redis.incr_counts t m s (ap (λ a. a.0) e) in
      let kept : redis.entry s1 ≡ some now =
        rw (ap (λ a. a.1) e) at (redis.incr_keeps t m s (ap (λ a. a.0) e)) in
      elim (window_cases window t (redis.entry s) win stands) [
        | inl (empty, new) ↦
            rw new (
              rw value
                (rw empty (first_mark t s1 (R.expire t k window s1) refl (rw empty at kept))))
        | inr (w, (open_now, (next, some_marks))) ↦
            let more : (m == 1) ≡ false =
              second_mark m w.marks (value ∙ rw open_now refl) some_marks in
            rw next (
              rw more (λ n h. (
                ok_injective h ∙ value ∙ rw open_now refl,
                (kept ∙ rw open_now refl, omega arith),
              )))
      ]

  hit-Marks :
      (t : ℕ) (s : R.State) (win : Option OpenWindow)
      → StandsFor (redis.entry s) win
      → Marks (mark t window win) (hit R t k window s)
  unfolding hit
  hit-Marks t s win stands = counted_mark t s win (R.incr t k s) stands refl

  -- Attempts at any instants, of which every call returns, are numbered like the marks of a window
  -- that opens with its first mark, is not pushed forward by the ones after it, and closes when its
  -- time is over.
  pub hits-refines :
      (ts : List ℕ) (s : R.State) (win : Option OpenWindow) (counted : List ℕ)
      → StandsFor (redis.entry s) win
      → hits R k window ts s ≡ some counted
      → counted ≡ window_marks window win ts
  unfolding hits
  hits-refines [] s win counted stands h = cc
  hits-refines (t ∷ ts) s win counted stands h =
      let (n, (rest, (first, (later, same)))) =
        and_later-some (hit R t k window s).0 (hits R k window ts (hit R t k window s).1) counted
          h in
      let (number, next) = hit-Marks t s win stands n first in
      same
      ∙ rw number (
          rw (hits-refines ts (hit R t k window s).1 (some (mark t window win)) rest next later)
            refl)
