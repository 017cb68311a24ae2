-- ===== src/Pagination/Lists.antt =====
-- Lists cut by a page size, and rows selected twice.
use udesa_x_posts_api.Common.{
  ℕ, zero, suc, ◌≤◌, ◌<◌, ◌≡◌, refl, Bool, true, false, List, [], ◌∷◌, ◌++◌, arith, ltb, inl, inr,
  Bool-cases, length, take, drop,
}
use mathlib.Core.List.{Memᴰ}
use mathlib.Core.List.Memᴰ.{head, tail}
use udesa_x_posts_api.Common.Lists.{All, All-weaken}
use udesa_x_posts_api.Common.Rows.{select, All-both}

pub never {ℓ} : {A : Type ℓ} → ⊥ → A
never absurd = elim absurd [ ]

module _ {A : Type 0} where
  pub take-take : (n : ℕ) (xs : List A) → take n (take (suc n) xs) ≡ take n xs
  take-take zero xs = refl
  take-take (suc n) [] = refl
  take-take (suc n) (x ∷ xs) = rw (take-take n xs) refl

  pub take_all : (n : ℕ) (xs : List A) → length xs ≤ n → take n xs ≡ xs
  take_all zero [] h = refl
  take_all zero (x ∷ xs) h = never (omega (arith, h))
  take_all (suc n) [] h = refl
  take_all (suc n) (x ∷ xs) h = rw (take_all n xs (omega (arith, h))) refl

  pub take-drop : (n : ℕ) (xs : List A) → take n xs ++ drop n xs ≡ xs
  take-drop zero xs = refl
  take-drop (suc n) [] = refl
  take-drop (suc n) (x ∷ xs) = rw (take-drop n xs) refl

  pub length-drop : (n : ℕ) (xs : List A) → suc n ≤ length xs → length (drop (suc n) xs) < length xs
  length-drop n [] h = omega (arith, h)
  length-drop zero (x ∷ xs) h = omega arith
  length-drop (suc n) (x ∷ xs) h = omega (arith, length-drop n xs (omega (arith, h)))

  pub more_than : (n : ℕ) (xs : List A) → ltb n (length (take (suc n) xs)) ≡ ltb n (length xs)
  more_than zero [] = refl
  more_than zero (x ∷ xs) = ground arith
  more_than (suc n) [] = ground arith
  more_than (suc n) (x ∷ xs) = ground (arith, more_than n xs)

  pub All-select : (p : A → Bool) (xs : List A) → All (λ x. p x ≡ true) (select p xs)
  All-select p [] = tt
  All-select p (x ∷ xs) = elim (Bool-cases (p x)) [
    | inl keeps ↦ rw keeps (keeps, All-select p xs)
    | inr drops ↦ rw drops (All-select p xs)
  ]

  pub All-select_of : (P : A → Type 0) (p : A → Bool) (xs : List A) → All P xs → All P (select p xs)
  All-select_of P p [] h = tt
  All-select_of P p (x ∷ xs) h = elim (Bool-cases (p x)) [
    | inl keeps ↦ rw keeps (h.0, All-select_of P p xs h.1)
    | inr drops ↦ rw drops (All-select_of P p xs h.1)
  ]

  pub All-self : (xs : List A) → All (λ x. Memᴰ x xs) xs
  All-self [] = tt
  All-self (x ∷ xs) = (head refl, All-weaken (λ y. Memᴰ y xs) _ (λ y m. tail m) xs (All-self xs))

  -- What a condition leaves of a list is in the list.
  pub select-members :
      (p : A → Bool) (xs : List A) → All (λ x. Memᴰ x xs × (p x ≡ true)) (select p xs)
  select-members p xs =
      All-both (λ x. Memᴰ x xs) (λ x. p x ≡ true) (select p xs)
        (All-select_of (λ x. Memᴰ x xs) p xs (All-self xs)) (All-select p xs)

  -- A narrower condition may be asked of what a wider one left.
  pub select-select :
      (p q : A → Bool)
      → ((x : A) → q x ≡ true → p x ≡ true)
      → (xs : List A) → select q (select p xs) ≡ select q xs
  select-select p q within [] = refl
  select-select p q within (x ∷ xs) = elim (Bool-cases (p x)) [
    | inl keeps ↦ rw keeps (rw (select-select p q within xs) refl)
    | inr drops ↦
        let out : q x ≡ false = ground (arith, within x, drops) in
        rw drops (rw out (select-select p q within xs))
  ]

  pub select_every : (p : A → Bool) (xs : List A) → All (λ x. p x ≡ true) xs → select p xs ≡ xs
  select_every p [] h = refl
  select_every p (x ∷ xs) h = rw h.0 (rw (select_every p xs h.1) refl)
