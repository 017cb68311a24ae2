-- ===== src/Common/Action/Rules.antt =====
-- What a call leaves when it returns, step by step through its `do` block. A call that raises
-- leaves nothing to show, since its transaction rolls back.
use udesa_x_posts_api.Common.Action.{
  ProblemError, Result, ok, problem, crash, Action, pure, raise, gets, require, expect, settle,
  transaction, modify, raise_if, crash_if, when◌run◌otherwise◌, continue, ◌>>=◌,
}
use mathlib.Core.Path.{◌≡◌, refl}
use mathlib.Core.Bool.{Bool, true, false}
use mathlib.Core.Option.{Option, none, some}

abbrev pub Holds : {S A : Type 0} → (A → S → Type 0) → Result A → S → Type 0
Holds Q (ok a) s = Q a s
Holds Q (problem e) s = Unit
Holds Q crash s = Unit

pub record Post {S A : Type 0} (Q : A → S → Type 0) (r : Result A × S) : Type 0 where
  pub holds : Holds Q r.0 r.1

module _ {S A : Type 0} {Q : A → S → Type 0} where
  pub post_pure : (a : A) (s : S) → Q a s → Post Q (pure a s)
  unfolding pure
  post_pure a s h = record { holds = h }

  pub post_raise : (e : ProblemError) (s : S) → Post Q (raise e s)
  unfolding raise
  post_raise e s = record { holds = tt }

  pub post_gets : (f : S → A) (s : S) → Q (f s) s → Post Q (gets f s)
  unfolding gets
  post_gets f s h = record { holds = h }

  pub post_require :
      (o : Option A) (e : ProblemError) (s : S)
      → ((a : A) → o ≡ some a → Q a s)
      → Post Q (require o e s)
  unfolding require
  post_require none e s h = record { holds = tt }
  post_require (some a) e s h = record { holds = h a refl }

  pub post_expect : (o : Option A) (s : S) → ((a : A) → o ≡ some a → Q a s) → Post Q (expect o s)
  unfolding expect
  post_expect none s h = record { holds = tt }
  post_expect (some a) s h = record { holds = h a refl }

  pub post_if :
      (c : Bool) (m n : Action S A) (s : S)
      → (c ≡ true → Post Q (m s))
      → (c ≡ false → Post Q (n s))
      → Post Q ((when c run m otherwise n) s)
  unfolding when◌run◌otherwise◌
  post_if true m n s hm hn = hm refl
  post_if false m n s hm hn = hn refl

module _ {S : Type 0} {Q : Unit {0} → S → Type 0} where
  pub post_modify : (f : S → S) (s : S) → Q tt (f s) → Post Q (modify f s)
  unfolding modify
  post_modify f s h = record { holds = h }

  pub post_raise_if :
      (c : Bool) (e : ProblemError) (s : S) → (c ≡ false → Q tt s) → Post Q (raise_if c e s)
  unfolding raise_if
  post_raise_if true e s h = record { holds = tt }
  post_raise_if false e s h = record { holds = h refl }

  pub post_crash_if : (c : Bool) (s : S) → (c ≡ false → Q tt s) → Post Q (crash_if c s)
  unfolding crash_if
  post_crash_if true s h = record { holds = tt }
  post_crash_if false s h = record { holds = h refl }

module _ {S A B : Type 0} {Q : B → S → Type 0} where
  post_continue :
      (r : Result A) (f : A → Action S B) (s : S)
      → Holds (λ a t. Post Q (f a t)) r s
      → Post Q (continue r f s)
  unfolding continue
  post_continue (ok a) f s h = h
  post_continue (problem e) f s h = record { holds = tt }
  post_continue crash f s h = record { holds = tt }

  pub post_bind :
      (m : Action S A) (f : A → Action S B) (s : S)
      → Post (λ a t. Post Q (f a t)) (m s)
      → Post Q ((m >>= f) s)
  unfolding ◌>>=◌
  post_bind m f s h = post_continue (m s).0 f (m s).1 h.holds

module _ {S A : Type 0} where
  Holds-weaken :
      (P Q : A → S → Type 0) (r : Result A) (s : S)
      → ((a : A) (t : S) → P a t → Q a t)
      → Holds P r s
      → Holds Q r s
  Holds-weaken P Q (ok a) s step h = step a s h
  Holds-weaken P Q (problem e) s step h = tt
  Holds-weaken P Q crash s step h = tt

  -- The rest of a block goes on from what its first call leaves.
  pub post_weaken :
      (P Q : A → S → Type 0) (r : Result A × S)
      → Post P r
      → ((a : A) (t : S) → P a t → Q a t)
      → Post Q r
  post_weaken P Q r h step = record { holds = Holds-weaken P Q r.0 r.1 step h.holds }

  settle-keeps :
      (P : S → Type 0) (r : Result A) (s t : S) → P s → Holds (λ a u. P u) r t → P (settle s r t).1
  unfolding settle
  settle-keeps P (ok a) s t old new = new
  settle-keeps P (problem e) s t old new = old
  settle-keeps P crash s t old new = old

  -- A transaction keeps what its body leaves when it returns, and what held before when it raises.
  pub transaction-keeps :
      (P : S → Type 0) (m : Action S A) (s : S)
      → P s
      → Post (λ a t. P t) (m s)
      → P (transaction m s).1
  unfolding transaction
  transaction-keeps P m s old new = settle-keeps P (m s).0 s (m s).1 old new.holds

-- The first call of a block, and then the rest from what it leaves.
module _ {S A B : Type 0} {Q : B → S → Type 0} where
  pub post_call :
      (P : A → S → Type 0) (m : Action S A) (f : A → Action S B) (s : S)
      → Post P (m s)
      → ((a : A) (t : S) → P a t → Post Q (f a t))
      → Post Q ((m >>= f) s)
  post_call P m f s h rest = post_bind m f s (post_weaken P (λ a t. Post Q (f a t)) (m s) h rest)

  pub post_read :
      (g : S → A) (f : A → Action S B) (s : S) → Post Q (f (g s) s) → Post Q ((gets g >>= f) s)
  post_read g f s h = post_bind (gets g) f s (post_gets g s h)

  pub post_need :
      (o : Option A) (e : ProblemError) (f : A → Action S B) (s : S)
      → ((a : A) → o ≡ some a → Post Q (f a s))
      → Post Q ((require o e >>= f) s)
  post_need o e f s h = post_bind (require o e) f s (post_require o e s h)

module _ {S B : Type 0} {Q : B → S → Type 0} where
  pub post_write :
      (g : S → S) (f : Unit {0} → Action S B) (s : S)
      → Post Q (f tt (g s))
      → Post Q ((modify g >>= f) s)
  post_write g f s h = post_bind (modify g) f s (post_modify g s h)

  pub post_refuse :
      (c : Bool) (e : ProblemError) (f : Unit {0} → Action S B) (s : S)
      → (c ≡ false → Post Q (f tt s))
      → Post Q ((raise_if c e >>= f) s)
  post_refuse c e f s h = post_bind (raise_if c e) f s (post_raise_if c e s h)

  pub post_check :
      (c : Bool) (f : Unit {0} → Action S B) (s : S)
      → (c ≡ false → Post Q (f tt s))
      → Post Q ((crash_if c >>= f) s)
  post_check c f s h = post_bind (crash_if c) f s (post_crash_if c s h)

module _ {S A : Type 0} where
  -- What a rule says of a call that is known to return.
  pub returned :
      (Q : A → S → Type 0) (r : Result A × S) (a : A) (s : S) → Post Q r → r ≡ (ok a, s) → Q a s
  returned Q r a s h same = (rw same at h).holds

module _ {S A B : Type 0} {Q : B → S → Type 0} where
  -- A block whose first call never returns has nothing to show.
  pub post_never :
      (m : Action S A) (f : A → Action S B) (s : S) → Post (λ _ _. ⊥) (m s) → Post Q ((m >>= f) s)
  post_never m f s h = post_call (λ _ _. ⊥) m f s h (λ a t no. elim no [ ])
