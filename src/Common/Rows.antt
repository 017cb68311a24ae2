-- ===== src/Common/Rows.antt =====
-- What the SQL statements of the repositories mean on the rows of a table: `SELECT … WHERE`,
-- `EXISTS`, `count(*)`, `INSERT`, `UPDATE … WHERE` and `DELETE … WHERE`.
use udesa_x_posts_api.Common.Tests.{if◌then◌else◌, ltb, Bool-cases}
use udesa_x_posts_api.Common.Lists.{All, All-append}
use Prim.Native.Nat.{ℕ, ◌+◌, ◌≤◌, ◌<◌}
use mathlib.Core.Path.{◌≡◌, refl, ap, subst}
use mathlib.Core.Logic.{inl, inr}
use mathlib.Core.Bool.{Bool, true, false, ◌&&◌}
use mathlib.Core.Option.{Option, none, some}
use mathlib.Core.List.{List, [], ◌∷◌, ◌++◌, map}
use native.Mathlib.Omega.{arith}

some_injective : {A : Type 0} (x y : A) → some x ≡ some y → x ≡ y
some_injective x y h = cc

module _ {A : Type 0} where
  abbrev pub select : (A → Bool) → List A → List A
  select p [] = []
  select p (x ∷ xs) = if p x then x ∷ select p xs else select p xs

  -- The rows that a `WHERE` reaches, as `rowcount` and `count(*)` report them.
  abbrev pub count : (A → Bool) → List A → ℕ
  count p [] = 0
  count p (x ∷ xs) = (if p x then 1 else 0) + count p xs

  abbrev pub exists : (A → Bool) → List A → Bool
  exists p rows = ltb 0 (count p rows)

  -- `session.get` and `scalar_one_or_none`: the row, if there is one.
  abbrev pub find : (A → Bool) → List A → Option A
  find p [] = none
  find p (x ∷ xs) = if p x then some x else find p xs

  abbrev pub update : (A → Bool) → (A → A) → List A → List A
  update p f = map (λ x. if p x then f x else x)

  abbrev pub delete : (A → Bool) → List A → List A
  delete p [] = []
  delete p (x ∷ xs) = if p x then delete p xs else x ∷ delete p xs

  -- A deletion takes away exactly the rows that it reaches.
  pub count-delete_within :
      (p q : A → Bool)
      → ((x : A) → q x ≡ true → p x ≡ true)
      → (xs : List A) → count p (delete q xs) + count q xs ≡ count p xs
  count-delete_within p q within [] = omega arith
  count-delete_within p q within (x ∷ xs) =
      ground (arith, within x, count-delete_within p q within xs)

  pub count-delete_apart :
      (p q : A → Bool)
      → ((x : A) → q x ≡ true → p x ≡ false)
      → (xs : List A) → count p (delete q xs) ≡ count p xs
  count-delete_apart p q apart [] = refl
  count-delete_apart p q apart (x ∷ xs) = ground (arith, apart x, count-delete_apart p q apart xs)

  pub count-delete_le : (p q : A → Bool) (xs : List A) → count p (delete q xs) ≤ count p xs
  count-delete_le p q [] = omega arith
  count-delete_le p q (x ∷ xs) = ground (arith, count-delete_le p q xs)

  -- A deletion whose condition covers `p` leaves no row of `p`.
  pub count-delete_all :
      (p q : A → Bool)
      → ((x : A) → p x ≡ true → q x ≡ true)
      → (xs : List A) → count p (delete q xs) ≡ 0
  count-delete_all p q covers [] = refl
  count-delete_all p q covers (x ∷ xs) = ground (arith, covers x, count-delete_all p q covers xs)

  -- Conditions that agree on every row count the same rows.
  pub count-agree :
      (p q : A → Bool) → ((x : A) → p x ≡ q x) → (xs : List A) → count p xs ≡ count q xs
  count-agree p q agree [] = refl
  count-agree p q agree (x ∷ xs) = ground (arith, agree x, count-agree p q agree xs)

  -- An update that keeps a condition keeps its count.
  pub count-update :
      (p q : A → Bool) (f : A → A)
      → ((x : A) → q x ≡ true → p (f x) ≡ p x)
      → (xs : List A) → count p (update q f xs) ≡ count p xs
  count-update p q f keep [] = refl
  count-update p q f keep (x ∷ xs) = ground (arith, keep x, count-update p q f keep xs)

  -- An update that only takes rows out of a condition does not raise its count.
  pub count-update_le :
      (p q : A → Bool) (f : A → A)
      → ((x : A) → q x ≡ true → p (f x) ≡ true → p x ≡ true)
      → (xs : List A) → count p (update q f xs) ≤ count p xs
  count-update_le p q f shrink [] = omega arith
  count-update_le p q f shrink (x ∷ xs) = ground (arith, shrink x, count-update_le p q f shrink xs)

  -- Every row of a condition that an update moves out of it is gone from it.
  pub count-update_none :
      (p q : A → Bool) (f : A → A)
      → ((x : A) → p x ≡ true → q x ≡ true)
      → ((x : A) → q x ≡ true → p (f x) ≡ false)
      → (xs : List A) → count p (update q f xs) ≡ 0
  count-update_none p q f covers out [] = refl
  count-update_none p q f covers out (x ∷ xs) =
      ground (arith, covers x, out x, count-update_none p q f covers out xs)

  pub find-holds : (p : A → Bool) (xs : List A) (x : A) → find p xs ≡ some x → p x ≡ true
  find-holds p [] x h = cc
  find-holds p (y ∷ ys) x h = ground (arith, find-holds p ys x)

  pub find-none : (p : A → Bool) (xs : List A) → find p xs ≡ none → count p xs ≡ 0
  find-none p [] h = refl
  find-none p (y ∷ ys) h = ground (arith, find-none p ys)

  pub find-some : (p : A → Bool) (xs : List A) (x : A) → find p xs ≡ some x → 0 < count p xs
  find-some p [] x h = cc
  find-some p (y ∷ ys) x h = ground (arith, find-some p ys x)

  -- What is found after an update that keeps the condition.
  pub find-update :
      (p q : A → Bool) (f : A → A)
      → ((x : A) → p (f x) ≡ p x)
      → (xs : List A)
      → find p (update q f xs)
        ≡ elim (find p xs) [ none ↦ none | some x ↦ some (if q x then f x else x) ]
  find-update p q f keep [] = refl
  find-update p q f keep (x ∷ xs) = elim (Bool-cases (q x)) [
    | inl reached ↦ rw reached (
        rw (keep x) (elim (Bool-cases (p x)) [
          | inl e ↦ rw e (rw reached refl)
          | inr e ↦ rw e (find-update p q f keep xs)
        ]))
    | inr other ↦ rw other (elim (Bool-cases (p x)) [
      | inl e ↦ rw e (rw other refl)
      | inr e ↦ rw e (find-update p q f keep xs)
    ])
  ]

  pub All-find :
      (P : A → Type 0) (p : A → Bool) (xs : List A) (x : A) → All P xs → find p xs ≡ some x → P x
  All-find P p [] x a h = cc
  All-find P p (y ∷ ys) x a h = elim (Bool-cases (p y)) [
    | inl e ↦ subst P (ground arith) a.0
    | inr e ↦ All-find P p ys x a.1 (ground arith)
  ]

  -- An update carries a predicate on all rows over, by its two kinds of rows.
  pub All-update :
      (P Q : A → Type 0) (p : A → Bool) (f : A → A)
      → ((x : A) → P x → p x ≡ true → Q (f x))
      → ((x : A) → P x → p x ≡ false → Q x)
      → (xs : List A) → All P xs
      → All Q (update p f xs)
  All-update P Q p f reached left [] h = tt
  All-update P Q p f reached left (x ∷ xs) h = (
    elim (Bool-cases (p x)) [ inl e ↦ rw e (reached x h.0 e) | inr e ↦ rw e (left x h.0 e) ],
    All-update P Q p f reached left xs h.1,
  )

  -- A row that is found counts under every condition that it meets.
  pub find-count :
      (p q : A → Bool) (xs : List A) (x : A) → find p xs ≡ some x → q x ≡ true → 0 < count q xs
  find-count p q [] x h e = cc
  find-count p q (y ∷ ys) x h e = elim (Bool-cases (p y)) [
    | inl here ↦ ground (arith, ap q (some_injective y x (ground arith)))
    | inr later ↦ ground (arith, find-count p q ys x)
  ]

  -- What a deletion takes from a condition: the rows that meet both.
  pub count-delete_both :
      (p q : A → Bool) (xs : List A)
      → count p (delete q xs) + count (λ x. p x && q x) xs ≡ count p xs
  count-delete_both p q [] = omega arith
  count-delete_both p q (x ∷ xs) = ground (arith, count-delete_both p q xs)

  pub count-within_le :
      (p q : A → Bool)
      → ((x : A) → q x ≡ true → p x ≡ true)
      → (xs : List A) → count q xs ≤ count p xs
  count-within_le p q within [] = omega arith
  count-within_le p q within (x ∷ xs) = ground (arith, within x, count-within_le p q within xs)

  -- Where a narrower condition counts as many rows, it holds of every row of the wider one.
  pub All-of_count :
      (p q : A → Bool)
      → ((x : A) → q x ≡ true → p x ≡ true)
      → (xs : List A) → count p xs ≤ count q xs
      → All (λ x. p x ≡ true → q x ≡ true) xs
  All-of_count p q within [] h = tt
  All-of_count p q within (x ∷ xs) h = (
    λ e. ground (arith, count-within_le p q within xs),
    All-of_count p q within xs (ground (arith, within x)),
  )

  pub All-both : (P Q : A → Type 0) (xs : List A) → All P xs → All Q xs → All (λ x. P x × Q x) xs
  All-both P Q [] h k = tt
  All-both P Q (x ∷ xs) h k = ((h.0, k.0), All-both P Q xs h.1 k.1)

  -- An update that reaches no row changes nothing.
  pub update-unreached :
      (p : A → Bool) (f : A → A) (xs : List A) → exists p xs ≡ false → update p f xs ≡ xs
  update-unreached p f [] h = refl
  update-unreached p f (x ∷ xs) h = ground (arith, update-unreached p f xs)

module _ {A B : Type 0} where
  -- `JOIN`: the rows that each row meets, in turn.
  abbrev pub gather : (A → List B) → List A → List B
  gather f [] = []
  gather f (x ∷ xs) = f x ++ gather f xs

  pub All-gather :
      (P : B → Type 0) (Q : A → Type 0) (f : A → List B)
      → ((x : A) → Q x → All P (f x))
      → (xs : List A) → All Q xs
      → All P (gather f xs)
  All-gather P Q f each [] h = tt
  All-gather P Q f each (x ∷ xs) h =
      All-append P (f x) (gather f xs) (each x h.0) (All-gather P Q f each xs h.1)
