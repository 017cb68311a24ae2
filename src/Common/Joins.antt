-- ===== src/Common/Joins.antt =====
-- How many rows a join and a selection give.
use udesa_x_posts_api.Common.Tests.{if◌then◌else◌}
use udesa_x_posts_api.Common.Lists.{All, length, length-append}
use udesa_x_posts_api.Common.Rows.{select, count, gather}
use Prim.Native.Nat.{◌+◌, ◌≤◌}
use mathlib.Core.Path.{◌≡◌, refl}
use mathlib.Core.Bool.{Bool, true, false, ◌&&◌}
use mathlib.Core.List.{List, [], ◌∷◌, ◌++◌, map}
use native.Mathlib.Omega.{arith}

module _ {A : Type 0} where
  pub count-length : (p : A → Bool) (xs : List A) → count p xs ≤ length xs
  count-length p [] = omega arith
  count-length p (x ∷ xs) = ground (arith, count-length p xs)

  pub count_none : (p : A → Bool) (xs : List A) → All (λ x. p x ≡ false) xs → count p xs ≡ 0
  count_none p [] h = refl
  count_none p (x ∷ xs) h = ground (arith, h.0, count_none p xs h.1)

  pub count-append : (p : A → Bool) (xs ys : List A) → count p (xs ++ ys) ≡ count p xs + count p ys
  count-append p [] ys = omega arith
  count-append p (x ∷ xs) ys = omega (arith, count-append p xs ys)

  pub length-select :
      (p q : A → Bool)
      → ((x : A) → p x ≡ true → q x ≡ true)
      → (xs : List A) → length (select p xs) ≤ count q xs
  length-select p q within [] = omega arith
  length-select p q within (x ∷ xs) = ground (arith, within x, length-select p q within xs)

  pub count-select : (p q : A → Bool) (xs : List A) → count q (select p xs) ≤ count q xs
  count-select p q [] = omega arith
  count-select p q (x ∷ xs) = ground (arith, count-select p q xs)

  pub count_guarded :
      (c : Bool) (q : A → Bool) (xs : List A)
      → count q xs ≤ 1
      → count (λ x. c && q x) xs ≤ (if c then 1 else 0)
  count_guarded true q xs h = h
  count_guarded false q [] h = omega arith
  count_guarded false q (x ∷ xs) h = ground (arith, count_guarded false q xs)

module _ {A B : Type 0} where
  pub length-map : (f : A → B) (xs : List A) → length (map f xs) ≡ length xs
  length-map f [] = refl
  length-map f (x ∷ xs) = rw (length-map f xs) refl

  -- Joined rows are counted by the rows that may give one.
  pub count-gather :
      (p : B → Bool) (q : A → Bool) (f : A → List B)
      → ((x : A) → count p (f x) ≤ (if q x then 1 else 0))
      → (xs : List A) → count p (gather f xs) ≤ count q xs
  count-gather p q f each [] = omega arith
  count-gather p q f each (x ∷ xs) =
      omega (arith, count-append p (f x) (gather f xs), each x, count-gather p q f each xs)

  pub length-gather :
      (f : A → List B)
      → ((x : A) → length (f x) ≤ 1)
      → (xs : List A) → length (gather f xs) ≤ length xs
  length-gather f each [] = omega arith
  length-gather f each (x ∷ xs) =
      omega (arith, length-append (f x) (gather f xs), each x, length-gather f each xs)

  pub count_map :
      (p : B → Bool) (f : A → B) (b : Bool)
      → ((x : A) → p (f x) ≡ b)
      → (xs : List A) → length xs ≤ 1
      → count p (map f xs) ≤ (if b then 1 else 0)
  count_map p f b same [] h = ground arith
  count_map p f b same (x ∷ []) h = ground (arith, same x)
  count_map p f b same (x ∷ y ∷ xs) h = ground (arith, h)

  -- Where all rows agree on a condition, it holds of as many as there are, or of none.
  pub count_gather :
      (p : B → Bool) (b : Bool) (f : A → List B)
      → ((x : A) → count p (f x) ≤ (if b then 1 else 0))
      → (xs : List A) → length xs ≤ 1
      → count p (gather f xs) ≤ (if b then 1 else 0)
  count_gather p b f each [] h = ground arith
  count_gather p b f each (x ∷ []) h = ground (arith, each x, count-append p (f x) [])
  count_gather p b f each (x ∷ y ∷ xs) h = ground (arith, h)
