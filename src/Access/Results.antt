-- ===== src/Access/Results.antt =====
-- What a call that returned a value has gone through.
use Prim.Native.String.{String}
use udesa_x_posts_api.Common.{◌≡◌, refl, Option, none, some, Bool, true, false, if◌then◌else◌}
use udesa_x_posts_api.Common.Int.{ℤ}
use udesa_x_posts_api.Common.Action.{ProblemError, Result, ok, problem, crash}
use udesa_x_posts_api.Access.{◌>>=◌, expected, or_problem, administrator_required}

-- What a call that returned has gone through.
pub returned :
    {A B : Type 0} (m : Result A) (f : A → Result B) (b : B)
    → (m >>= f) ≡ ok b
    → (a : A) × (m ≡ ok a) × (f a ≡ ok b)
returned (ok a) f b h = (a, refl, h)
returned (problem e) f b h = cc
returned crash f b h = cc

pub named_value : {A : Type 0} (o : Option A) (a : A) → expected o ≡ ok a → o ≡ some a
named_value none a h = cc
named_value (some x) a h = cc

pub answered_value :
    {A : Type 0} (o : Option A) (e : ProblemError) (a : A) → or_problem o e ≡ ok a → o ≡ some a
answered_value none e a h = cc
answered_value (some x) e a h = cc

pub ok_injective : {A : Type 0} (a b : A) → ok a ≡ ok b → a ≡ b
ok_injective a b h = cc

pub some_of : (n : ℤ) (c : Option ℤ) → ok (some n) ≡ ok c → some n ≡ c
some_of n c h = cc

pub same_number : (n m : ℤ) → some n ≡ some m → m ≡ n
same_number n m h = cc

pub allowed : (b : Bool) → (if b then ok tt else problem administrator_required) ≡ ok tt → b ≡ true
allowed true h = refl
allowed false h = cc

pub pair_of_none : (p : Option String × Option String) → p.0 ≡ none → p ≡ (none, p.1)
pair_of_none (a, b) h = rw h refl
