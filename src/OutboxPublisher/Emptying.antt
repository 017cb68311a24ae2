-- ===== src/OutboxPublisher/Emptying.antt =====
-- A drain leaves no row where the broker confirms every message.
use udesa_x_posts_api.Common.{
  ℕ, zero, suc, ◌≡◌, ◌<◌, refl, true, false, not, ◌==◌, inl, inr, arith, List, [], ◌∷◌, Bool-cases,
  some, Option, ltb, length, take,
}
use udesa_x_posts_api.Common.Lists.{All, All-weaken}
use udesa_x_posts_api.Common.Rows.{select}
use udesa_x_posts_api.Database.{OutboxRow}
use udesa_x_posts_api.Pagination.{order_by}
use udesa_x_posts_api.Pagination.Sorted.{count-order_by}
use udesa_x_posts_api.Pagination.Lists.{never, select_every}
use udesa_x_posts_api.OutboxPublisher.{
  Broker, Message, Answer, Line, Conditions, Outcome, without, message_of, publish, publish_rows,
  batch, publish_batch, or_go_on, drain, batch_size, oldest_first,
}
use udesa_x_posts_api.OutboxPublisher.Draining.{IsRowOf, every-IsRowOf, drain-ends}
use udesa_x_posts_api.OutboxPublisher.AtLeastOnce.{Ended}

take_short : {A : Type 0} (n : ℕ) (xs : List A) → length (take n xs) < n → take n xs ≡ xs
take_short zero xs h = never (omega (arith, h))
take_short (suc n) [] h = refl
take_short (suc n) (x ∷ xs) h = rw (take_short n xs (omega (arith, h))) refl

-- The rows that are left when those of a list are deleted one after the other.
abbrev without_all : List OutboxRow → List OutboxRow → List OutboxRow
without_all [] outbox = outbox
without_all (row ∷ rows) outbox = without_all rows (without row outbox)

without-IsRowOf :
    (row : OutboxRow) (rows outbox : List OutboxRow)
    → All (IsRowOf (row ∷ rows)) outbox
    → All (IsRowOf rows) (without row outbox)
without-IsRowOf row rows [] h = tt
without-IsRowOf row rows (x ∷ xs) h = elim (Bool-cases (x.id == row.id)) [
  | inl same ↦ rw same (without-IsRowOf row rows xs h.1)
  | inr other ↦
      let still : IsRowOf rows x = ground (arith, h.0, other) in
      rw other (still, without-IsRowOf row rows xs h.1)
]

without_all-none :
    (rows outbox : List OutboxRow) → All (IsRowOf rows) outbox → without_all rows outbox ≡ []
without_all-none [] [] h = refl
without_all-none [] (x ∷ xs) h = never (ground (arith, h.0))
without_all-none (row ∷ rows) outbox h =
    without_all-none rows (without row outbox) (without-IsRowOf row rows outbox h)

-- Nothing is locked, and the transaction commits.
pub record IsCalm (c : Conditions) : Type 0 where
  pub unlocked : (row : OutboxRow) → c.locked row ≡ false
  pub committed : c.commits ≡ true

below : (m n : ℕ) → ltb m n ≡ true → m < n
below m n h = ground arith

All-unlocked :
    (c : Conditions) → IsCalm c → (rows : List OutboxRow) → All (λ r. not (c.locked r) ≡ true) rows
All-unlocked c calm [] = tt
All-unlocked c calm (row ∷ rows) = (rw (calm.unlocked row) refl, All-unlocked c calm rows)

short-batch :
    (c : Conditions) (outbox : List OutboxRow)
    → IsCalm c
    → length (batch c outbox) < batch_size
    → batch c outbox ≡ order_by (oldest_first c) outbox
unfolding batch
short-batch c outbox calm h =
    let unlocked : select (λ r. not (c.locked r)) outbox ≡ outbox =
      select_every (λ r. not (c.locked r)) outbox (All-unlocked c calm outbox) in
    rw unlocked (take_short batch_size (order_by (oldest_first c) outbox) (rw unlocked at h))

every_ordered :
    (c : Conditions) (outbox : List OutboxRow)
    → All (IsRowOf (order_by (oldest_first c) outbox)) outbox
every_ordered c outbox =
    All-weaken _ _ (λ r h. rw (count-order_by (oldest_first c) (λ x. x.id == r.id) outbox) h) outbox
      (every-IsRowOf outbox)

module _ (B : Broker)
    (confirms : (m : Message) (s : B.State) → (B.publish m s).0 ≡ Answer.confirmed) where
  publish_rows_confirmed :
      (rows : List OutboxRow) (l : Line B.State)
      → (s : B.State) × publish_rows B rows l
          ≡ (record { outbox = without_all rows l.outbox; sent = s }, (length rows, false))
  unfolding publish_rows publish
  publish_rows_confirmed [] l = (l.sent, refl)
  publish_rows_confirmed (row ∷ rows) l =
      let (s, e) =
        publish_rows_confirmed rows
          (record { outbox = without row l.outbox; sent = (publish B row l.sent).1 }) in
      (s, rw (confirms (message_of row) l.sent, publish_rows) (rw e refl))

  -- The pass ended the drain with no row left, or the passes after it decide.
  pass-Ended :
      (c : Conditions) (l : Line B.State) (rest : Option (Outcome × Line B.State))
      → IsCalm c
      → (let after = (publish_batch B c l).1 in
          Ended B (λ e. e.outbox ≡ []) rest
          → Ended B (λ e. e.outbox ≡ []) (or_go_on B (publish_batch B c l).0 after rest))
  unfolding publish_batch or_go_on
  pass-Ended c l rest calm k =
      let (s, e) = publish_rows_confirmed (batch c l.outbox) l in
      elim (Bool-cases (ltb (length (batch c l.outbox)) batch_size)) [
        | inl short ↦
            let whole = short-batch c l.outbox calm (below _ _ short) in
            rw calm.committed (
              rw e (
                rw short (
                  rw whole (
                    without_all-none (order_by (oldest_first c) l.outbox) l.outbox
                      (every_ordered c l.outbox)))))
        | inr full ↦ rw calm.committed (rw e (rw full k))
      ]

  drain_empties :
      (n : ℕ) (c : ℕ → Conditions) (l : Line B.State)
      → ((k : ℕ) → IsCalm (c k))
      → Ended B (λ e. e.outbox ≡ []) (drain B n c l)
  unfolding drain
  drain_empties zero c l calm = tt
  drain_empties (suc n) c l calm =
      pass-Ended (c n) l (drain B n c (publish_batch B (c n) l).1) (calm n)
        (drain_empties n c (publish_batch B (c n) l).1 calm)

  -- With a broker that confirms every message, no row locked by others and every transaction
  -- committed, a drain ends with the outbox empty.
  pub drain-empties :
      (c : ℕ → Conditions) (l : Line B.State)
      → ((k : ℕ) → IsCalm (c k))
      → (ended : Outcome × Line B.State) × ((drain B (suc (length l.outbox)) c l ≡ some ended)
          × (ended.1.outbox ≡ []))
  drain-empties c l calm =
      let (ended, e) = drain-ends B c l in
      (ended, (e, rw e at (drain_empties (suc (length l.outbox)) c l calm)))
