-- ===== src/OutboxPublisher/Starving.antt =====
-- Rows that the broker returns stay in the batch of every pass.
use udesa_x_posts_api.Common.{
  ℕ, zero, suc, ◌≡◌, refl, Bool, false, inl, inr, List, [], ◌∷◌, Bool-cases, length, ◌∙◌,
}
use udesa_x_posts_api.Common.Lists.{All}
use udesa_x_posts_api.Database.{OutboxRow}
use udesa_x_posts_api.OutboxPublisher.{
  Broker, Answer, Line, Conditions, message_of, publish, publish_rows, batch, run, left_by,
  publish_batch, or_go_on, drain,
}

module _ (B : Broker) where
  -- The broker returns or refuses the message of the row, whatever came before.
  abbrev pub IsRefused : OutboxRow → Type 0
  IsRefused row = (s : B.State) → (B.publish (message_of row) s).0 ≡ Answer.delivery_error

  publish_rows_refused :
      (rows : List OutboxRow) (l : Line B.State)
      → All IsRefused rows
      → (s : B.State) × publish_rows B rows l ≡ (record l { sent = s }, (0, false))
  unfolding publish_rows publish
  publish_rows_refused [] l h = (l.sent, refl)
  publish_rows_refused (row ∷ rows) l h =
      let (s, e) = publish_rows_refused rows (record l { sent = (publish B row l.sent).1 }) h.1 in
      (s, rw (h.0 l.sent, publish_rows) e)

  drain_refused :
      (n : ℕ) (c : ℕ → Conditions) (l : Line B.State)
      → ((k : ℕ) → All IsRefused (batch (c k) l.outbox))
      → (left_by B (drain B (suc n) c l) l).outbox ≡ l.outbox
  unfolding drain publish_batch or_go_on left_by
  drain_refused n c l h =
      let (s, e) = publish_rows_refused (batch (c n) l.outbox) l (h n) in
      elim (Bool-cases (c n).commits) [
        | inl commits ↦ rw commits (rw e refl)
        | inr crashed ↦ rw crashed refl
      ]

  -- Where the broker returns or refuses every message of the rows that a batch takes, every round of
  -- the publisher, on any connection, leaves the outbox as it was: the rows behind the batch are not
  -- published either.
  pub run_refused :
      (k : ℕ) (connects : ℕ → Bool) (c : ℕ → ℕ → Conditions) (l : Line B.State)
      → ((j i : ℕ) → All IsRefused (batch (c j i) l.outbox))
      → (run B k connects c l).outbox ≡ l.outbox
  unfolding run
  run_refused zero connects c l h = refl
  run_refused (suc k) connects c l h = elim (Bool-cases (connects k)) [
    | inl there ↦
        let same = drain_refused (length l.outbox) (c k) l (h k) in
        rw (there, run)
          (run_refused k connects c (left_by B (drain B (suc (length l.outbox)) (c k) l) l)
              (rw same h)
            ∙ same)
    | inr away ↦ rw (away, run) (run_refused k connects c l h)
  ]
