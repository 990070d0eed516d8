-- ===== src/Delivery.antt =====
-- app/workflows/outbox.py: one run of the delivery of outbox events to the event publisher. The
-- publisher is the argument `takes`: whether it accepts an event, or raises.
pub mod Loop
pub mod Totals
pub mod Sent
use shiptawk_be.Prelude.{
  ℕ, ◌+◌, ◌*◌, ◌^◌, min, Bool, true, false, Option, none, some, List, [], ◌∷◌, length,
  if◌then◌else◌, Result, ok, err,
}
use shiptawk_be.Text.{Text}
use shiptawk_be.Idempotency.{DbError}
use shiptawk_be.Outbox.{
  OutboxEvent, OutboxStatus, Table, pending, publishing, published, failed, claim_outbox_events,
  mark_outbox_event_published, release_outbox_event_for_retry,
}

-- `raised` is the exception that ends the run.
pub record Run : Type 0 where
  pub rows : Table
  pub claimed : ℕ
  pub published_count : ℕ
  pub retried : ℕ
  pub failed_count : ℕ
  pub raised : Option DbError

abbrev pub microseconds : ℕ → ℕ
microseconds seconds = seconds * 1000000

-- `min(300, 2 ** min(event.attempts, 8))`
unfoldable pub delay_seconds : ℕ → ℕ
delay_seconds attempts = min 300 (2 ^ min attempts 8)

-- `timedelta(minutes=2)`
abbrev pub lease_duration : ℕ
lease_duration = microseconds 120

abbrev pub transport : Text
transport = b't' ∷ b'r' ∷ b'a' ∷ b'n' ∷ b's' ∷ b'p' ∷ b'o' ∷ b'r' ∷ b't' ∷ []

abbrev pub is_failed : OutboxStatus → Bool
is_failed failed = true
is_failed _ = false

-- What follows `mark_outbox_event_published`.
abbrev pub after_publish : Run → Result DbError (OutboxEvent × Table) → Run
after_publish run (ok (event, rows)) = record run {
  rows = rows;
  published_count = run.published_count + 1;
}
after_publish run (err e) = record run { raised = some e }

-- What follows `release_outbox_event_for_retry`.
abbrev pub after_release : Run → Result DbError (OutboxEvent × Table) → Run
after_release run (ok (event, rows)) =
    if is_failed event.status
    then record run { rows = rows; failed_count = run.failed_count + 1 }
    else record run { rows = rows; retried = run.retried + 1 }
after_release run (err e) = record run { raised = some e }

abbrev pub start_run : Table → Run
start_run rows = record {
  rows = rows;
  claimed = 0;
  published_count = 0;
  retried = 0;
  failed_count = 0;
  raised = none;
}

-- What the transaction that settles an event meets: the table that it reads and the one that it writes.
pub record Met : Type 0 where
  pub seen : Table
  pub rows : Table

-- `meanwhile` is what the transactions of other workers make of the table while the publisher answers.
module _ (lower : Text → Text) (takes : OutboxEvent → Bool) (meanwhile : OutboxEvent → Table → Met)
    (max_attempts now : ℕ) where
  -- The body of the loop.
  unfoldable pub deliver_event : OutboxEvent → Run → Run
  deliver_event event run =
      let met = meanwhile event run.rows in
      let met_run = record run { rows = met.rows } in
      if takes event
      then after_publish met_run (mark_outbox_event_published met.seen met.rows event.id now)
      else after_release met_run (
          release_outbox_event_for_retry lower met.seen met.rows event.id transport
            (now + microseconds (delay_seconds event.attempts)) max_attempts)

  unfoldable pub deliver_loop : List OutboxEvent → Run → Run
  deliver_loop [] run = run
  deliver_loop (event ∷ events) run =
      let next = deliver_event event run in
      elim next.raised [ none ↦ deliver_loop events next | some e ↦ next ]

  abbrev pub after_claim : Table → Result DbError (Table × Table) → Run
  after_claim rows (ok (batch, leased)) =
      deliver_loop batch (record (start_run leased) { claimed = length batch })
  after_claim rows (err e) = record (start_run rows) { raised = some e }

  -- `deliver`, with the rows that other transactions hold at its claim.
  unfoldable pub deliver : (ℕ → Bool) → ℕ → Table → Run
  unfolding deliver_loop deliver_event
  deliver locked batch_size rows =
      after_claim rows (claim_outbox_events locked rows batch_size lease_duration now none)
