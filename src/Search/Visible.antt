-- ===== src/Search/Visible.antt =====
-- The parts of the matches that a window shows (the first loop of `snippet`, app/search.py): they
-- come in order, apart, and cover what the matches cover.
use udesa_x_posts_api.Common.{
  ℕ, ◌≤◌, ◌<◌, ◌≡◌, refl, ◌∙◌, Bool, true, false, ◌&&◌, ◌||◌, List, [], ◌∷◌, arith, ltb, leb,
  Bool-cases, inl, inr, leb→le,
}
use udesa_x_posts_api.Search.{join_visible, visible_matches, max, min}

abbrev pub within : ℕ → ℕ × ℕ → Bool
within i m = leb m.0 i && ltb i m.1

-- Whether one of the matches holds an index.
abbrev pub is_match : List (ℕ × ℕ) → ℕ → Bool
is_match [] i = false
is_match (m ∷ matches) i = within i m || is_match matches i

-- The parts lie between two bounds, not empty, each after the one before it.
abbrev pub IsSorted : ℕ → ℕ → List (ℕ × ℕ) → Type 0
IsSorted low high [] = low ≤ high
IsSorted low high (v ∷ visible) = (low ≤ v.0) × (v.0 < v.1) × IsSorted v.1 high visible

-- The last part starts at `k` at the latest.
abbrev LastBy : ℕ → List (ℕ × ℕ) → Type 0
LastBy k [] = Unit
LastBy k (v ∷ []) = v.0 ≤ k
LastBy k (v ∷ w ∷ visible) = LastBy k (w ∷ visible)

-- Matches in the order of their starts.
abbrev pub AreAscending : ℕ → List (ℕ × ℕ) → Type 0
AreAscending low [] = Unit
AreAscending low (m ∷ matches) = (low ≤ m.0) × AreAscending m.0 matches

later : (k l : ℕ) (vs : List (ℕ × ℕ)) → k ≤ l → LastBy k vs → LastBy l vs
later k l [] h b = tt
later k l (v ∷ []) h b = omega arith
later k l (v ∷ w ∷ vs) h b = later k l (w ∷ vs) h b

low-le :
    (low high k : ℕ) (v : ℕ × ℕ) (vs : List (ℕ × ℕ))
    → IsSorted low high (v ∷ vs)
    → LastBy k (v ∷ vs)
    → low ≤ k
low-le low high k v [] s b = omega arith
low-le low high k v (w ∷ vs) s b = omega (arith, low-le v.1 high k w vs s.2 b)

LastBy-join : (l r : ℕ) (vs : List (ℕ × ℕ)) → LastBy l vs → LastBy l (join_visible vs l r)
unfolding join_visible
LastBy-join l r [] b = omega arith
LastBy-join l r (v ∷ []) b = elim (Bool-cases (leb l v.1)) [
  | inl touches ↦ rw touches b
  | inr apart ↦ rw apart (omega arith)
]
LastBy-join l r (v ∷ w ∷ []) b = elim (Bool-cases (leb l w.1)) [
  | inl touches ↦ rw touches b
  | inr apart ↦ rw apart (omega arith)
]
LastBy-join l r (v ∷ w ∷ u ∷ vs) b = LastBy-join l r (w ∷ u ∷ vs) b

join-IsSorted :
    (low high l r : ℕ) (vs : List (ℕ × ℕ))
    → IsSorted low high vs
    → LastBy l vs
    → low ≤ l
    → l < r
    → r ≤ high
    → IsSorted low high (join_visible vs l r)
unfolding join_visible
join-IsSorted low high l r [] s b h k m = (h, k, m)
join-IsSorted low high l r (v ∷ []) s b h k m = elim (Bool-cases (leb l v.1)) [
  | inl touches ↦ rw touches (s.0, ground arith, ground arith)
  | inr apart ↦ rw apart (s.0, s.1, (ground arith, k, m))
]
join-IsSorted low high l r (v ∷ w ∷ vs) s b h k m =
    (s.0, s.1, join-IsSorted v.1 high l r (w ∷ vs) s.2 b (low-le v.1 high l w vs s.2 b) k m)

or_assoc : (a b c : Bool) → (a || (b || c)) ≡ ((a || b) || c)
or_assoc true b c = refl
or_assoc false b c = refl

or_false : (a : Bool) → (a || false) ≡ a
or_false true = refl
or_false false = refl

-- Two matches that touch cover what the joined one covers.
within-joined :
    (a b l r i : ℕ) → a ≤ l → l ≤ b → within i (a, max b r) ≡ (within i (a, b) || within i (l, r))
within-joined a b l r i h k = ground arith

is_match-join :
    (l r i : ℕ) (vs : List (ℕ × ℕ))
    → LastBy l vs
    → is_match (join_visible vs l r) i ≡ (is_match vs i || within i (l, r))
unfolding join_visible
is_match-join l r i [] b = or_false (within i (l, r))
is_match-join l r i (v ∷ []) b = elim (Bool-cases (leb l v.1)) [
  | inl touches ↦ rw touches (
      rw (or_false (within i (v.0, max v.1 r)))
        (rw (or_false (within i v)) (within-joined v.0 v.1 l r i b (leb→le l v.1 touches))))
  | inr apart ↦ rw apart (rw (or_false (within i (l, r))) (rw (or_false (within i v)) refl))
]
is_match-join l r i (v ∷ w ∷ vs) b =
    rw (is_match-join l r i (w ∷ vs) b)
      (or_assoc (within i v) (is_match (w ∷ vs) i) (within i (l, r)))

module _ (start end : ℕ) where
  -- What a list of matches covers inside the window.
  abbrev pub shown : List (ℕ × ℕ) → ℕ → Bool
  shown matches i = within i (start, end) && is_match matches i

  none_shown : (a b : Bool) → a ≡ (a || (b && false))
  none_shown a b = ground arith

  pub visible-IsSorted :
      (low : ℕ) (vs ms : List (ℕ × ℕ))
      → IsSorted start end vs
      → LastBy (max start low) vs
      → AreAscending low ms
      → IsSorted start end (visible_matches start end vs ms)
  unfolding visible_matches
  visible-IsSorted low vs [] s b a = s
  visible-IsSorted low vs (m ∷ ms) s b a =
      let left = max start m.0 in
      let right = min end m.1 in
      let b' : LastBy left vs = later (max start low) left vs (ground arith) b in
      elim (Bool-cases (leb right left)) [
        | inl hidden ↦ rw hidden (visible-IsSorted m.0 vs ms s b' a.1)
        | inr seen ↦ rw seen (
            visible-IsSorted m.0 (join_visible vs left right) ms
              (join-IsSorted start end left right vs s b' (ground arith) (ground arith)
                (ground arith))
              (LastBy-join left right vs b') a.1)
      ]

  -- The part of a match that the window shows covers what the match covers there.
  within-clipped :
      (a b i : ℕ) (vs ms : Bool)
      → leb (min end b) (max start a) ≡ false
      → ((vs || within i (max start a, min end b)) || (within i (start, end) && ms))
        ≡ (vs || (within i (start, end) && (within i (a, b) || ms)))
  within-clipped a b i vs ms seen = ground (arith, seen)

  within-hidden :
      (a b i : ℕ) (vs ms : Bool)
      → leb (min end b) (max start a) ≡ true
      → (vs || (within i (start, end) && ms))
        ≡ (vs || (within i (start, end) && (within i (a, b) || ms)))
  within-hidden a b i vs ms hidden = ground (arith, hidden)

  pub is_match-visible :
      (low i : ℕ) (vs ms : List (ℕ × ℕ))
      → LastBy (max start low) vs
      → AreAscending low ms
      → is_match (visible_matches start end vs ms) i ≡ (is_match vs i || shown ms i)
  unfolding visible_matches
  is_match-visible low i vs [] b a = none_shown (is_match vs i) (within i (start, end))
  is_match-visible low i vs (m ∷ ms) b a =
      let left = max start m.0 in
      let right = min end m.1 in
      let b' : LastBy left vs = later (max start low) left vs (ground arith) b in
      elim (Bool-cases (leb right left)) [
        | inl hidden ↦ rw hidden (
            is_match-visible m.0 i vs ms b' a.1
            ∙ within-hidden m.0 m.1 i (is_match vs i) (is_match ms i) hidden)
        | inr seen ↦ rw seen (
            is_match-visible m.0 i (join_visible vs left right) ms (LastBy-join left right vs b')
              a.1
            ∙ (rw (is_match-join left right i vs b')
                (within-clipped m.0 m.1 i (is_match vs i) (is_match ms i) seen)))
      ]
