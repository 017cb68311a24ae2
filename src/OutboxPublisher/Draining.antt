-- ===== src/OutboxPublisher/Draining.antt =====
-- A drain ends, and with a broker that confirms it leaves no row.
use udesa_x_posts_api.Common.{
  ℕ, zero, suc, ◌≡◌, ◌<◌, ◌≤◌, refl, Bool, true, false, not, ◌==◌, inl, inr, arith, List, [], ◌∷◌,
  Bool-cases, some, Option, ltb, ◌||◌, length, ◌∙◌, ◌⊎◌,
}
use udesa_x_posts_api.Common.Lists.{All, All-weaken, All-take}
use udesa_x_posts_api.Common.Rows.{delete, exists, select}
use udesa_x_posts_api.Database.{OutboxRow}
use udesa_x_posts_api.Pagination.Sorted.{All-order_by}
use udesa_x_posts_api.Pagination.Lists.{All-select_of, never}
use udesa_x_posts_api.OutboxPublisher.{
  Broker, Answer-cases, Line, Conditions, Outcome, without, publish, publish_rows, batch,
  publish_batch, or_go_on, drain, batch_size, oldest_first,
}
use udesa_x_posts_api.OutboxPublisher.AtLeastOnce.{publish_rows-keeps}

module _ {A : Type 0} where
  length-delete_le : (p : A → Bool) (xs : List A) → length (delete p xs) ≤ length xs
  length-delete_le p [] = omega arith
  length-delete_le p (x ∷ xs) = ground (arith, length-delete_le p xs)

  length-delete_lt :
      (p : A → Bool) (xs : List A) → exists p xs ≡ true → length (delete p xs) < length xs
  length-delete_lt p [] h = ground arith
  length-delete_lt p (x ∷ xs) h = ground (arith, length-delete_le p xs, length-delete_lt p xs)

-- The identifier is that of a row of the outbox.
abbrev pub IsRowOf : List OutboxRow → OutboxRow → Type 0
IsRowOf outbox r = exists (λ x. x.id == r.id) outbox ≡ true

IsRowOf-more : (x r : OutboxRow) (xs : List OutboxRow) → IsRowOf xs r → IsRowOf (x ∷ xs) r
IsRowOf-more x r xs h = ground arith

pub every-IsRowOf : (xs : List OutboxRow) → All (IsRowOf xs) xs
every-IsRowOf [] = tt
every-IsRowOf (x ∷ xs) =
    (ground arith, All-weaken _ _ (λ r h. IsRowOf-more x r xs h) xs (every-IsRowOf xs))

batch-IsRowOf : (c : Conditions) (outbox : List OutboxRow) → All (IsRowOf outbox) (batch c outbox)
unfolding batch
batch-IsRowOf c outbox = All-take (IsRowOf outbox) batch_size _ (
    All-order_by (oldest_first c) (IsRowOf outbox) (select (λ r. not (c.locked r)) outbox)
      (All-select_of (IsRowOf outbox) (λ r. not (c.locked r)) outbox (every-IsRowOf outbox)))

full_batch : (cut : Bool) (n : ℕ) → (cut || ltb n batch_size) ≡ false → 0 < n
full_batch cut n h = ground arith

module _ (B : Broker) where
  publish_rows-length :
      (n : ℕ) (rows : List OutboxRow) (l : Line B.State)
      → length l.outbox ≤ n
      → length (publish_rows B rows l).0.outbox ≤ n
  publish_rows-length n =
      publish_rows-keeps B (λ l. length l.outbox ≤ n)
        (λ row l h e. omega (arith, h, length-delete_le (λ r. r.id == row.id) l.outbox))
        (λ row l h. h)

  -- A pass that publishes anything leaves fewer rows.
  publish_rows-fewer :
      (rows : List OutboxRow) (l : Line B.State)
      → All (IsRowOf l.outbox) rows
      → 0 < (publish_rows B rows l).1.0
      → length (publish_rows B rows l).0.outbox < length l.outbox
  unfolding publish_rows
  publish_rows-fewer [] l h k = never (omega (arith, k))
  publish_rows-fewer (row ∷ rows) l h k = elim (Answer-cases (publish B row l.sent).0) [
    | inl e ↦
        rw (e, publish_rows)
          (omega (
            arith,
            length-delete_lt (λ r. r.id == row.id) l.outbox h.0,
            publish_rows-length (length (without row l.outbox)) rows
                (record { outbox = without row l.outbox; sent = (publish B row l.sent).1 })
                (omega arith),
          ))
    | inr (inl e) ↦ rw (e, publish_rows) (publish_rows-fewer rows _ h.1 (rw (e, publish_rows) at k))
    | inr (inr e) ↦ never (omega (arith, rw (e, publish_rows) at k))
  ]

  -- The pass ended the drain, or it left fewer rows.
  publish_batch-advances :
      (c : Conditions) (l : Line B.State) (rest : Option (Outcome × Line B.State))
      → let ended = publish_batch B c l in
        (or_go_on B ended.0 ended.1 rest ≡ some ended)
        ⊎ ((or_go_on B ended.0 ended.1 rest ≡ rest) × (length ended.1.outbox < length l.outbox))
  unfolding publish_batch or_go_on
  publish_batch-advances c l rest = elim (Bool-cases c.commits) [
    | inl commits ↦
        let pass = publish_rows B (batch c l.outbox) l in
        elim (Bool-cases (pass.1.1 || ltb pass.1.0 batch_size)) [
          | inl stops ↦ rw commits (rw stops (inl refl))
          | inr goes ↦ rw commits (
              rw goes (
                inr (
                  refl,
                  publish_rows-fewer (batch c l.outbox) l (batch-IsRowOf c l.outbox)
                      (full_batch pass.1.1 pass.1.0 goes),
                )))
        ]
    | inr crashed ↦ rw crashed (inl refl)
  ]

  drain_within :
      (n : ℕ) (c : ℕ → Conditions) (l : Line B.State)
      → length l.outbox < n
      → (ended : Outcome × Line B.State) × drain B n c l ≡ some ended
  unfolding drain
  drain_within zero c l h = never (omega (arith, h))
  drain_within (suc n) c l h =
      let after = (publish_batch B (c n) l).1 in
      elim (publish_batch-advances (c n) l (drain B n c after)) [
        | inl stops ↦ (publish_batch B (c n) l, stops)
        | inr (goes, fewer) ↦
            let (ended, e) = drain_within n c after (omega (arith, h, fewer)) in (ended, goes ∙ e)
      ]

  -- A drain ends, whatever the broker answers and whatever conditions its passes meet: one pass for
  -- each row of the outbox and one more are enough.
  pub drain-ends :
      (c : ℕ → Conditions) (l : Line B.State)
      → (ended : Outcome × Line B.State) × drain B (suc (length l.outbox)) c l ≡ some ended
  drain-ends c l = drain_within (suc (length l.outbox)) c l (omega arith)
