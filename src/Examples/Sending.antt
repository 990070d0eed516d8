-- ===== src/Examples/Sending.antt =====
-- A delivery run of two events, of which the publisher accepts the first.
use shiptawk_be.Prelude.{
  ℕ, ◌+◌, ◌≤◌, ◌≡◌, refl, Bool, String, true, false, none, [], ◌∷◌, arith, any, map, sorted, ◌==◌,
  All, ◌⊎◌, ◌&&◌, ◌++◌, find, update, some, ap, sym, ◌∙◌,
}
use shiptawk_be.Outbox.{
  OutboxEvent, Table, pending, has_id, selected, lease_row, claim_outbox_events, claimable,
  claimed_before, mark_outbox_event_published, publishing_event, release_outbox_event_for_retry,
  publish_row, release_row,
}
use shiptawk_be.Idempotency.{DbError}
use shiptawk_be.Outbox.Rows.{IsValid, []-IsValid, append-IsValid}
use shiptawk_be.Delivery.{Run, Met, lease_duration, deliver}
use shiptawk_be.Delivery.Loop.{held, IsLeft}
use shiptawk_be.Delivery.Totals.{deliver_accounts}
use shiptawk_be.Delivery.Sent.{is_published, published_row, IsOurs, published_was_accepted}

abbrev event : ℕ → String → OutboxEvent
event i key = record {
  id = i;
  event_name = "operator/measurement.followup";
  schema_version = 1;
  idempotency_key = key;
  aggregate_id = none;
  workspace_id = none;
  product_id = none;
  metadata_payload = [];
  status = pending;
  attempts = 0;
  available_at = 5;
  lease_expires_at = none;
  created_at = i;
  published_at = none;
  last_error_category = none;
}

abbrev two_events : Table
two_events = event 1 "a" ∷ event 2 "b" ∷ []

two_events-IsValid : IsValid two_events
two_events-IsValid =
    append-IsValid (event 1 "a" ∷ []) (event 2 "b") refl refl refl
      (append-IsValid [] (event 1 "a") refl refl refl []-IsValid)

abbrev takes_first : OutboxEvent → Bool
takes_first e = e.id == 1

abbrev no_locks : ℕ → Bool
no_locks i = false

left_alone :
    (j : ℕ) (rows : Table)
    → (3 == j) ≡ false
    → find (has_id j) (rows ++ event 3 "c" ∷ []) ≡ find (has_id j) rows
left_alone j [] h = ground arith
left_alone j (x ∷ rows) h = ground (arith, left_alone j rows h)

-- Another worker enqueues a third event while the publisher answers.
abbrev another : OutboxEvent → Table → Met
another e rows = record { seen = rows; rows = rows ++ event 3 "c" ∷ [] }

two_events-IsLeft :
    (j : ℕ) → any (has_id j) (selected no_locks 5 20 none two_events) ≡ true → IsLeft another j
unfolding selected sorted claimable claimed_before
two_events-IsLeft j own e rows = (refl, left_alone j rows (ground arith))

abbrev run : Run
run = deliver (λ t. t) takes_first another 10 20 no_locks 5 two_events

first-IsOurs : IsOurs another 1
first-IsOurs e rows h = ap published_row (sym (left_alone 1 rows refl)) ∙ h

deliver_accounts_example :
    (run.raised ≡ none)
    × (run.claimed ≤ 5)
    × (run.published_count + run.retried + run.failed_count ≡ run.claimed)
    × All (λ e. held e.id run.rows ≡ false) (selected no_locks 5 20 none two_events)
deliver_accounts_example =
    deliver_accounts (λ t. t) takes_first another 10 20 no_locks 5 two_events two_events-IsLeft
      (omega arith) (omega arith) two_events-IsValid

run_publishes : is_published 1 run.rows ≡ true
unfolding deliver claim_outbox_events selected sorted claimable claimed_before lease_row
    mark_outbox_event_published publishing_event release_outbox_event_for_retry publish_row
    release_row
run_publishes = refl

published_was_accepted_example :
    (is_published 1 two_events ≡ true)
    ⊎ (any
          (λ e. has_id 1 e && takes_first e)
          (map (lease_row 20 lease_duration) (selected no_locks 5 20 none two_events))
        ≡ true)
published_was_accepted_example =
    published_was_accepted (λ t. t) takes_first another 10 20 no_locks 5 two_events 1 first-IsOurs
      (omega arith) run_publishes

-- Where another worker has published the first event meanwhile, the run raises and stops.
abbrev taken_over : OutboxEvent → Table → Met
taken_over e rows =
    let after = update (has_id e.id) (publish_row 20) rows in record { seen = after; rows = after }

lost_run_raises :
    (deliver (λ t. t) takes_first taken_over 10 20 no_locks 5 two_events).raised
    ≡ some DbError.value_error
unfolding deliver claim_outbox_events selected sorted claimable claimed_before lease_row
    mark_outbox_event_published publishing_event publish_row
lost_run_raises = refl
