-- ===== src/OutboxPublisher/AtLeastOnce.antt =====
-- A row leaves the outbox only when the broker has its message.
use udesa_x_posts_api.Common.{
  ℕ, zero, suc, ◌≡◌, Bool, true, ◌==◌, inl, inr, arith, List, [], ◌∷◌, Bool-cases, ◌⊎◌, some, none,
  Option, ltb, ◌||◌,
}
use mathlib.Core.Path.{subst}
use udesa_x_posts_api.Common.Rows.{exists, count-delete_apart}
use udesa_x_posts_api.Database.{OutboxRow}
use udesa_x_posts_api.OutboxPublisher.{
  Broker, Message, Answer-cases, Answer, Line, Conditions, Outcome, without, message_of, publish,
  publish_rows, batch, publish_batch, or_go_on, drain, batch_size,
}

-- What the client relies on: a confirmation means that the broker keeps the message of that
-- identifier, and publishing another loses none.
pub record Keeps (B : Broker) : Type 0 where
  pub has : ℕ → B.State → Bool
  pub confirmed_has :
      (m : Message) (s : B.State)
      → (B.publish m s).0 ≡ Answer.confirmed
      → has m.message_id (B.publish m s).1 ≡ true
  pub keeps : (m : Message) (s : B.State) (i : ℕ) → has i s ≡ true → has i (B.publish m s).1 ≡ true

module _ (B : Broker) where
  -- What every publication keeps, with its deletion or without, a pass over the rows keeps.
  pub publish_rows-keeps :
      (P : Line B.State → Type 0)
      → ((row : OutboxRow) (l : Line B.State)
          → P l
          → (publish B row l.sent).0 ≡ Answer.confirmed
          → P (record { outbox = without row l.outbox; sent = (publish B row l.sent).1 }))
      → ((row : OutboxRow) (l : Line B.State)
          → P l
          → P (record l { sent = (publish B row l.sent).1 }))
      → (rows : List OutboxRow) (l : Line B.State) → P l
      → P (publish_rows B rows l).0
  unfolding publish_rows
  publish_rows-keeps P confirm fail [] l h = h
  publish_rows-keeps P confirm fail (row ∷ rows) l h =
      elim (Answer-cases (publish B row l.sent).0) [
        | inl e ↦
            rw (e, publish_rows) (publish_rows-keeps P confirm fail rows _ (confirm row l h e))
        | inr (inl e) ↦
            rw (e, publish_rows) (publish_rows-keeps P confirm fail rows _ (fail row l h))
        | inr (inr e) ↦ rw (e, publish_rows) (fail row l h)
      ]

  -- Where a drain ended, this holds of the line.
  abbrev pub Ended : (Line B.State → Type 0) → Option (Outcome × Line B.State) → Type 0
  Ended P none = Unit
  Ended P (some (outcome, after)) = P after

  or_go_on-Ended :
      (P : Line B.State → Type 0) (o : Outcome) (after : Line B.State)
      → P after
      → (rest : Option (Outcome × Line B.State)) → Ended P rest
      → Ended P (or_go_on B o after rest)
  unfolding or_go_on
  or_go_on-Ended P (Outcome.returned n cut) after h rest k =
      elim (Bool-cases (cut || ltb n batch_size)) [ inl e ↦ rw e h | inr e ↦ rw e k ]
  or_go_on-Ended P Outcome.raised after h rest k = h

module _ (B : Broker) (K : Keeps B) where
  -- The event is waiting, or the broker has it.
  abbrev pub IsKept : ℕ → Line B.State → Type 0
  IsKept i l = (exists (λ r. r.id == i) l.outbox ≡ true) ⊎ (K.has i l.sent ≡ true)

  has-publish_rows :
      (i : ℕ) (rows : List OutboxRow) (l : Line B.State)
      → K.has i l.sent ≡ true
      → K.has i (publish_rows B rows l).0.sent ≡ true
  unfolding publish
  has-publish_rows i =
      publish_rows-keeps B (λ l. K.has i l.sent ≡ true)
        (λ row l h e. K.keeps (message_of row) l.sent i h)
        (λ row l h. K.keeps (message_of row) l.sent i h)

  deleted-IsKept :
      (i : ℕ) (row : OutboxRow) (l : Line B.State)
      → IsKept i l
      → (publish B row l.sent).0 ≡ Answer.confirmed
      → IsKept i (record { outbox = without row l.outbox; sent = (publish B row l.sent).1 })
  unfolding publish message_of
  deleted-IsKept i row l (inr h) e = inr (K.keeps (message_of row) l.sent i h)
  deleted-IsKept i row l (inl h) e = elim (Bool-cases (row.id == i)) [
    | inl same ↦
        let named : row.id ≡ i = ground (arith, same) in
        inr (
          subst (λ j. K.has j (publish B row l.sent).1 ≡ true) named
            (K.confirmed_has (message_of row) l.sent e))
    | inr other ↦ inl (
        rw
          (count-delete_apart (λ r. r.id == i) (λ r. r.id == row.id) (λ r k. ground arith) l.outbox)
          h)
  ]

  left-IsKept :
      (i : ℕ) (row : OutboxRow) (l : Line B.State)
      → IsKept i l
      → IsKept i (record l { sent = (publish B row l.sent).1 })
  unfolding publish
  left-IsKept i row l (inl h) = inl h
  left-IsKept i row l (inr h) = inr (K.keeps (message_of row) l.sent i h)

  rolled_back :
      (i : ℕ) (rows : List OutboxRow) (l : Line B.State)
      → IsKept i l
      → IsKept i (record (publish_rows B rows l).0 { outbox = l.outbox })
  rolled_back i rows l (inl h) = inl h
  rolled_back i rows l (inr h) = inr (has-publish_rows i rows l h)

  publish_batch-IsKept :
      (i : ℕ) (c : Conditions) (l : Line B.State) → IsKept i l → IsKept i (publish_batch B c l).1
  unfolding publish_batch
  publish_batch-IsKept i c l h = elim (Bool-cases c.commits) [
    | inl commits ↦
        rw commits (
          publish_rows-keeps B (IsKept i) (deleted-IsKept i) (left-IsKept i) (batch c l.outbox) l h)
    | inr crashed ↦ rw crashed (rolled_back i (batch c l.outbox) l h)
  ]

  drain-Ended :
      (i n : ℕ) (c : ℕ → Conditions) (l : Line B.State)
      → IsKept i l
      → Ended B (IsKept i) (drain B n c l)
  unfolding drain
  drain-Ended i zero c l h = tt
  drain-Ended i (suc n) c l h =
      let after = publish_batch-IsKept i (c n) l h in
      or_go_on-Ended B (IsKept i) (publish_batch B (c n) l).0 _ after (drain B n c _)
        (drain-Ended i n c _ after)

  -- However many passes a drain makes, with whatever answers of the broker, and also when the
  -- transaction of a pass does not commit: an event that waits in the outbox, or that the broker has,
  -- waits there or is at the broker when the drain ends.
  pub drain-IsKept :
      (i n : ℕ) (c : ℕ → Conditions) (l : Line B.State)
      → IsKept i l
      → (o : Outcome) (after : Line B.State) → drain B n c l ≡ some (o, after)
      → IsKept i after
  drain-IsKept i n c l h o after e = rw e at (drain-Ended i n c l h)
