-- ===== src/Common/Action.antt =====
-- Calls that read and write a state and may raise, the transaction around a request, and rules
-- for what a call leaves when it returns.
pub mod Rules
use udesa_x_posts_api.Common.Tests.{if◌then◌else◌}
use Prim.Native.Nat.{ℕ}
use Prim.Native.String.{String}
use mathlib.Core.Bool.{Bool}
use mathlib.Core.Option.{Option, none, some}

-- `headers` only ever holds `Retry-After`, as a number of seconds.
pub record ProblemError : Type 0 where
  pub status : ℕ
  pub code : String
  pub title : String
  pub detail : String
  pub retry_after : Option ℕ

-- `crash` is any other exception, such as a constraint that the database refuses: a 500.
pub data Result (A : Type 0) : Type 0 where
  ok : A → Result A
  problem : ProblemError → Result A
  crash : Result A

-- The state comes back after a raise too: what was written stays until the rollback.
abbrev pub Action : Type 0 → Type 0 → Type 0
Action S A = S → Result A × S

module _ {S A : Type 0} where
  unfoldable pub pure : A → Action S A
  pure a s = (ok a, s)

  unfoldable pub raise : ProblemError → Action S A
  raise e s = (problem e, s)

  unfoldable pub gets : (S → A) → Action S A
  gets f s = (ok (f s), s)

  -- An `if` between two calls.
  infix 1 when◌run◌otherwise◌
  unfoldable pub when◌run◌otherwise◌ : Bool → Action S A → Action S A → Action S A
  (when c run m otherwise n) s = (if c then m else n) s

  -- An optional value that the code refuses to go on without.
  unfoldable pub require : Option A → ProblemError → Action S A
  require none e s = (problem e, s)
  require (some a) e s = (ok a, s)

  -- An optional value whose absence the code does not foresee.
  unfoldable pub expect : Option A → Action S A
  expect none s = (crash, s)
  expect (some a) s = (ok a, s)

  -- The state after a request that began at the first one: its own, or the first one again.
  unfoldable pub settle : S → Result A → S → Result A × S
  settle before (ok a) after = (ok a, after)
  settle before (problem e) after = (problem e, before)
  settle before crash after = (crash, before)

  -- The session commits when the call returns and rolls back when it raises.
  unfoldable pub transaction : Action S A → Action S A
  unfolding settle
  transaction m s = settle s (m s).0 (m s).1

module _ {S : Type 0} where
  unfoldable pub modify : (S → S) → Action S (Unit {0})
  modify f s = (ok tt, f s)

  unfoldable pub raise_if : Bool → ProblemError → Action S (Unit {0})
  raise_if c e s = (if c then problem e else ok tt, s)

  unfoldable pub crash_if : Bool → Action S (Unit {0})
  crash_if c s = (if c then crash else ok tt, s)

module _ {S A B : Type 0} where
  unfoldable pub continue : Result A → (A → Action S B) → Action S B
  continue (ok a) f s = f a s
  continue (problem e) f s = (problem e, s)
  continue crash f s = (crash, s)

  infixl 5 ◌>>=◌ ◌>>◌
  -- Opening this opens the actions above too.
  unfoldable pub ◌>>=◌ : Action S A → (A → Action S B) → Action S B
  unfolding continue pure raise gets when◌run◌otherwise◌ require expect modify raise_if crash_if
  ◌>>=◌ m f s = continue (m s).0 f (m s).1

  abbrev pub ◌>>◌ : Action S A → Action S B → Action S B
  m >> n = m >>= λ _. n
