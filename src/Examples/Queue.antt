-- ===== src/Examples/Queue.antt =====
-- The outbox on small tables.
use shiptawk_be.Prelude.{
  ℕ, ◌≤◌, ◌≡◌, refl, Bool, String, true, false, none, some, [], ◌∷◌, arith, find, length, sorted,
  ok, inl, All, any, ◌⊎◌,
}
use shiptawk_be.Text.{Text}
use shiptawk_be.Outbox.{
  OutboxEvent, Table, pending, publishing, published, has_id, in_batch, selected, lease_row,
  fresh_row, publish_row, enqueue_outbox_event, claim_outbox_events, mark_outbox_event_published,
  sanitize_error_category, release_row, release_outbox_event_for_retry, claimable, claimed_before,
  publishing_event,
}
use shiptawk_be.Outbox.Rows.{IsValid}
use shiptawk_be.Outbox.Leases.{expired_reclaimed}
use shiptawk_be.Outbox.Exclusive.{at_once, after_step, claims_exclusive}
use shiptawk_be.Outbox.Keys.{enqueue_replays}
use shiptawk_be.Outbox.Category.{sanitize_error_category-IsWord}
use shiptawk_be.Outbox.Steps.{
  Reach, start, next, enqueue, claim, publish, Reach-IsValid, Step-settled, Overwrites, here, later,
}
use shiptawk_be.Text.Slug.{IsWord}

abbrev event : ℕ → String → OutboxEvent
event i key = record {
  id = i;
  event_name = "operator/measurement.followup";
  schema_version = 1;
  idempotency_key = key;
  aggregate_id = none;
  workspace_id = some 1;
  product_id = some 2;
  metadata_payload = [];
  status = pending;
  attempts = 0;
  available_at = 5;
  lease_expires_at = none;
  created_at = 0;
  published_at = none;
  last_error_category = none;
}

abbrev no_locks : ℕ → Bool
no_locks i = false

-- The second event was leased until 8 by a worker that died.
abbrev leased_event : OutboxEvent
leased_event = record (event 2 "b") { status = publishing; lease_expires_at = some 8; attempts = 1 }

abbrev two_events : Table
two_events = event 1 "a" ∷ leased_event ∷ []

abbrev claimed_events : Table
claimed_events =
    record (event 1 "a") { status = publishing; lease_expires_at = some 110; attempts = 1 }
    ∷ record leased_event { lease_expires_at = some 110; attempts = 2 }
    ∷ []

claim_two :
    claim_outbox_events no_locks two_events 5 100 10 none ≡ ok (claimed_events, claimed_events)
unfolding claim_outbox_events selected lease_row sorted claimable claimed_before
claim_two = refl

expired_reclaimed_example : in_batch claimed_events leased_event ≡ true
expired_reclaimed_example =
    expired_reclaimed no_locks two_events 5 100 10 8 none leased_event claimed_events claimed_events
      claim_two refl refl refl (omega arith) (omega arith) refl refl (omega arith)

abbrev first_row : OutboxEvent
first_row = record (event 1 "a") { created_at = 3 }

enqueue_first :
    enqueue_outbox_event [] 3 (event 1 "a")
    ≡ ok (record { value = first_row; inserted = true }, first_row ∷ [])
unfolding enqueue_outbox_event
enqueue_first = refl

abbrev error_text : Text
error_text = b'a' ∷ b' ' ∷ b'b' ∷ b':' ∷ b'c' ∷ []

sanitize_example :
    All IsWord (sanitize_error_category (λ t. t) error_text)
    × (1 ≤ length (sanitize_error_category (λ t. t) error_text))
    × (length (sanitize_error_category (λ t. t) error_text) ≤ 64)
sanitize_example = sanitize_error_category-IsWord (λ t. t) error_text

-- Enqueued at 3, claimed at 10 and published at 12.
abbrev claimed_row : OutboxEvent
claimed_row = record first_row { status = publishing; lease_expires_at = some 110; attempts = 1 }

abbrev sent_row : OutboxEvent
sent_row = record claimed_row {
  status = published;
  published_at = some 12;
  lease_expires_at = none;
}

claim_first :
    claim_outbox_events no_locks (first_row ∷ []) 5 100 10 none
    ≡ ok (claimed_row ∷ [], claimed_row ∷ [])
unfolding claim_outbox_events selected lease_row sorted claimable claimed_before
claim_first = refl

publish_first :
    mark_outbox_event_published (claimed_row ∷ []) (claimed_row ∷ []) 1 12
    ≡ ok (sent_row, sent_row ∷ [])
unfolding mark_outbox_event_published publish_row publishing_event
publish_first = refl

enqueue_second :
    enqueue_outbox_event (sent_row ∷ []) 20 (event 2 "b")
    ≡ ok (
      record { value = fresh_row 20 (event 2 "b"); inserted = true },
      sent_row ∷ fresh_row 20 (event 2 "b") ∷ [],
    )
unfolding enqueue_outbox_event
enqueue_second = refl

Reach-sent : Reach (λ t. t) (sent_row ∷ [])
Reach-sent =
    next
      (next (next start (enqueue 3 (event 1 "a") _ enqueue_first))
        (claim no_locks 5 100 10 none _ claim_first))
      (publish (claimed_row ∷ []) 1 12 _ publish_first)

Reach-IsValid_example : IsValid (sent_row ∷ [])
Reach-IsValid_example = Reach-IsValid (λ t. t) Reach-sent

Step-settled_example :
    (find (has_id 1) (sent_row ∷ fresh_row 20 (event 2 "b") ∷ []) ≡ some sent_row)
    ⊎ Overwrites (λ t. t) 1 (enqueue 20 (event 2 "b") _ enqueue_second)
Step-settled_example =
    Step-settled (λ t. t) 1 sent_row Reach-sent (enqueue 20 (event 2 "b") _ enqueue_second) refl
      (inl refl)

-- A release that read the first row before it was published writes it back as pending.
abbrev reopened_row : OutboxEvent
reopened_row = release_row (λ t. t) [] 30 5 1 sent_row

reopens :
    release_outbox_event_for_retry (λ t. t) (claimed_row ∷ []) (sent_row ∷ []) 1 [] 30 5
    ≡ ok (release_row (λ t. t) [] 30 5 1 claimed_row, reopened_row ∷ [])
unfolding release_outbox_event_for_retry publishing_event
reopens = refl

reopened_pending : reopened_row.status ≡ pending
unfolding release_row
reopened_pending = refl

-- The first row is claimed and published before its key is enqueued again.
enqueue_replays_example :
    (owner : OutboxEvent) × (enqueue_outbox_event (sent_row ∷ []) 9 (event 7 "a")
      ≡ ok (record { value = owner; inserted = false }, sent_row ∷ []))
    × (owner.id ≡ 1)
enqueue_replays_example =
    enqueue_replays (λ t. t) [] 3 9 (event 1 "a") (event 7 "a")
      (record { value = first_row; inserted = true }) (first_row ∷ []) (sent_row ∷ []) enqueue_first
      (later (later here (claim no_locks 5 100 10 none _ claim_first))
        (publish (claimed_row ∷ []) 1 12 _ publish_first))
      refl refl refl

-- A second row is enqueued while the first is leased, and the next claim returns that one alone.
abbrev second_row : OutboxEvent
second_row = fresh_row 12 (event 2 "b")

abbrev claimed_second : OutboxEvent
claimed_second = record second_row { status = publishing; lease_expires_at = some 70; attempts = 1 }

enqueue_between :
    enqueue_outbox_event (claimed_row ∷ []) 12 (event 2 "b")
    ≡ ok (record { value = second_row; inserted = true }, claimed_row ∷ second_row ∷ [])
unfolding enqueue_outbox_event
enqueue_between = refl

claim_second :
    claim_outbox_events no_locks (claimed_row ∷ second_row ∷ []) 5 50 20 none
    ≡ ok (claimed_second ∷ [], claimed_row ∷ claimed_second ∷ [])
unfolding claim_outbox_events selected lease_row sorted claimable claimed_before
claim_second = refl

claims_exclusive_example : any (has_id 1) (claimed_second ∷ []) ≡ false
claims_exclusive_example =
    claims_exclusive (λ t. t) no_locks no_locks (first_row ∷ []) 5 100 10 5 50 20 1 none none
      (claimed_row ∷ []) (claimed_row ∷ []) (claimed_row ∷ second_row ∷ []) (claimed_second ∷ [])
      (claimed_row ∷ claimed_second ∷ []) claim_first refl
      (after_step at_once (enqueue 12 (event 2 "b") _ enqueue_between) tt) (omega arith)
      claim_second
