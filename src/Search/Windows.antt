-- ===== src/Search/Windows.antt =====
-- Windows of a text (the slices of app/search.py), and the text of a window with each character
-- marked.
use udesa_x_posts_api.Common.{
  ℕ, zero, suc, ◌+◌, ◌-◌, ◌≤◌, ◌<◌, ◌≡◌, refl, ◌∙◌, Bool, List, [], ◌∷◌, ◌++◌, map, arith, length,
  take, drop,
}
use udesa_x_posts_api.Search.{slice}

-- The characters from an index on, each with its mark.
abbrev pub marked : (ℕ → Bool) → ℕ → List ℕ → List (ℕ × Bool)
marked f i [] = []
marked f i (c ∷ cs) = (c, f i) ∷ marked f (suc i) cs

abbrev pub plain : Bool → List ℕ → List (ℕ × Bool)
plain b = map (λ c. (c, b))

marked-append :
    (f : ℕ → Bool) (i : ℕ) (xs ys : List ℕ)
    → marked f i (xs ++ ys) ≡ marked f i xs ++ marked f (i + length xs) ys
marked-append f i [] ys = let e : i + 0 ≡ i = omega arith in rw e refl
marked-append f i (x ∷ xs) ys =
    rw (marked-append f (suc i) xs ys)
      (let e : suc i + length xs ≡ i + length (x ∷ xs) = omega arith in rw e refl)

-- Marks that agree on the window mark it alike.
pub marked-agree :
    (f g : ℕ → Bool) (i : ℕ) (xs : List ℕ)
    → ((j : ℕ) → i ≤ j → j < i + length xs → f j ≡ g j)
    → marked f i xs ≡ marked g i xs
marked-agree f g i [] h = refl
marked-agree f g i (x ∷ xs) h =
    rw (h i (omega arith) (omega arith))
      (rw (marked-agree f g (suc i) xs (λ j a b. h j (omega arith) (omega arith))) refl)

marked-same : (b : Bool) (i : ℕ) (xs : List ℕ) → marked (λ j. b) i xs ≡ plain b xs
marked-same b i [] = refl
marked-same b i (x ∷ xs) = rw (marked-same b (suc i) xs) refl

pub marked-plain :
    (f : ℕ → Bool) (b : Bool) (i : ℕ) (xs : List ℕ)
    → ((j : ℕ) → i ≤ j → j < i + length xs → f j ≡ b)
    → marked f i xs ≡ plain b xs
marked-plain f b i xs h = marked-agree f (λ j. b) i xs h ∙ marked-same b i xs

pub length-marked : (f : ℕ → Bool) (i : ℕ) (xs : List ℕ) → length (marked f i xs) ≡ length xs
length-marked f i [] = refl
length-marked f i (x ∷ xs) = rw (length-marked f (suc i) xs) refl

take-split :
    (m n : ℕ) (xs : List ℕ) → m ≤ length xs → take (m + n) xs ≡ take m xs ++ take n (drop m xs)
take-split zero n xs h = let e : zero + n ≡ n = omega arith in rw e refl
take-split (suc m) n [] h = elim h [ ]
take-split (suc m) n (x ∷ xs) h =
    let e : suc m + n ≡ suc (m + n) = omega arith in
    rw e (rw (take-split m n xs (omega arith)) refl)

drop-drop : (m n : ℕ) (xs : List ℕ) → m ≤ length xs → drop n (drop m xs) ≡ drop (m + n) xs
drop-drop zero n xs h = let e : zero + n ≡ n = omega arith in rw e refl
drop-drop (suc m) n [] h = elim h [ ]
drop-drop (suc m) n (x ∷ xs) h =
    let e : suc m + n ≡ suc (m + n) = omega arith in rw e (drop-drop m n xs (omega arith))

length-drop : (m : ℕ) (xs : List ℕ) → length (drop m xs) ≡ length xs - m
length-drop zero xs = omega arith
length-drop (suc m) [] = omega arith
length-drop (suc m) (x ∷ xs) = omega (arith, length-drop m xs)

length-take : (m : ℕ) (xs : List ℕ) → m ≤ length xs → length (take m xs) ≡ m
length-take zero xs h = refl
length-take (suc m) [] h = elim h [ ]
length-take (suc m) (x ∷ xs) h = omega (arith, length-take m xs)

pub length-slice :
    (a b : ℕ) (content : List ℕ) → a ≤ b → b ≤ length content → length (slice a b content) ≡ b - a
length-slice a b content h k =
    length-take (b - a) (drop a content) (omega (arith, length-drop a content))

slice-split :
    (a b c : ℕ) (content : List ℕ)
    → a ≤ b
    → b ≤ c
    → c ≤ length content
    → slice a c content ≡ slice a b content ++ slice b c content
slice-split a b c content h k l =
    let e : c - a ≡ (b - a) + (c - b) = omega arith in
    let d : a + (b - a) ≡ b = omega arith in
    rw e (
      take-split (b - a) (c - b) (drop a content) (omega (arith, length-drop a content))
      ∙ (rw (drop-drop a (b - a) content (omega arith)) (rw d refl)))

-- The marks of a window are those of its two parts.
pub marked-slice :
    (f : ℕ → Bool) (a b c : ℕ) (content : List ℕ)
    → a ≤ b
    → b ≤ c
    → c ≤ length content
    → marked f a (slice a c content)
      ≡ marked f a (slice a b content) ++ marked f b (slice b c content)
marked-slice f a b c content h k l =
    let e : a + length (slice a b content) ≡ b =
      omega (arith, length-slice a b content h (omega arith)) in
    rw (slice-split a b c content h k l)
      (marked-append f a (slice a b content) (slice b c content) ∙ (rw e refl))
