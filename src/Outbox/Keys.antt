-- ===== src/Outbox/Keys.antt =====
-- `enqueue_outbox_event`: a name and key that are enqueued again.
use shiptawk_be.Prelude.{
  ℕ, ◌≡◌, refl, sym, ap, true, false, String, some, [], ◌∷◌, ◌++◌, arith, leb, find, find-append,
  find-append_some, find-update-some, any, update, ok, eq_iff, Option-cases, ◌∙◌, Bool-cases, inl,
  inr, if◌then◌else◌, subst, Bool,
}
use mathlib.Core.Path.{subst₂}
use shiptawk_be.Text.{Text}
use shiptawk_be.Idempotency.{InsertReplayResult}
use shiptawk_be.Outbox.{
  OutboxEvent, Table, has_id, has_key, same_key, fresh_row, lease_row, publish_row, release_row,
  in_batch, selected, enqueue_outbox_event,
}
use shiptawk_be.Outbox.Leases.{claim-ok}
use shiptawk_be.Outbox.Steps.{
  Step, enqueue, claim, publish, release, Later, here, later, publish-ok, release-ok,
}

has_key_self : (e : OutboxEvent) → has_key e.event_name e.idempotency_key e ≡ true
has_key_self e =
    ground (arith, eq_iff e.event_name e.event_name, eq_iff e.idempotency_key e.idempotency_key)

-- The row with a name and key has this identifier.
record Owns (name key : String) (i : ℕ) (rows : Table) : Type 0 where
  owner : OutboxEvent
  found : find (has_key name key) rows ≡ some owner
  identity : owner.id ≡ i

update-Owns :
    (name key : String) (i : ℕ) (q : OutboxEvent → Bool) (f : OutboxEvent → OutboxEvent)
    (rows : Table)
    → ((e : OutboxEvent) → has_key name key (f e) ≡ has_key name key e)
    → ((e : OutboxEvent) → (f e).id ≡ e.id)
    → Owns name key i rows
    → Owns name key i (update q f rows)
update-Owns name key i q f rows keys ids h = record {
  owner = if q h.owner then f h.owner else h.owner;
  found = find-update-some (has_key name key) q f keys rows h.owner h.found;
  identity = elim (Bool-cases (q h.owner)) [
    | inl hit ↦ rw hit (ids h.owner ∙ h.identity)
    | inr miss ↦ rw miss (h.identity)
  ];
}

append-Owns :
    (name key : String) (i : ℕ) (rows new : Table)
    → Owns name key i rows
    → Owns name key i (rows ++ new)
append-Owns name key i rows new h = record {
  owner = h.owner;
  found = find-append_some (has_key name key) rows new h.found;
  identity = h.identity;
}

-- The two tables that an enqueueing may leave.
enqueued-Owns :
    (name key : String) (i : ℕ) (rows : Table) (now : ℕ) (event : OutboxEvent)
    (result : InsertReplayResult OutboxEvent) (after : Table)
    → enqueue_outbox_event rows now event ≡ ok (result, after)
    → Owns name key i rows
    → Owns name key i after
unfolding enqueue_outbox_event
enqueued-Owns name key i rows now event result after h owns =
    let checked : leb 1 event.schema_version ≡ true = ground arith in
    elim (Option-cases (find (same_key event) rows)) [
      | inr (owner, taken) ↦
          let same : rows ≡ after = ground arith in subst (Owns name key i) same owns
      | inl free ↦ elim (Bool-cases (any (has_id event.id) rows)) [
        | inl clash ↦ absurd (ground arith)
        | inr new_id ↦
            let same : (rows ++ fresh_row now event ∷ []) ≡ after = ground arith in
            subst (Owns name key i) same
              (append-Owns name key i rows (fresh_row now event ∷ []) owns)
      ]
    ]

module _ (lower : Text → Text) (name key : String) (i : ℕ) where
  Step-Owns :
      {rows after : Table} → Step lower rows after → Owns name key i rows → Owns name key i after
  unfolding lease_row publish_row release_row
  Step-Owns {rows} {after} (enqueue now event result h) owns =
      enqueued-Owns name key i rows now event result after h owns
  Step-Owns {rows} {after} (claim locked limit lease now workspace batch h) owns =
      let claimed = claim-ok locked rows limit lease now workspace batch after h in
      subst (Owns name key i) claimed.3 (
        update-Owns name key i (in_batch (selected locked limit now workspace rows))
          (lease_row now lease) rows (λ e. refl) (λ e. refl) owns)
  Step-Owns {rows} {after} (publish seen j at event h) owns =
      let (_, _, _, _, written) = publish-ok lower seen rows j at event after h in
      subst (Owns name key i) written
        (update-Owns name key i (has_id j) (publish_row at) rows (λ e. refl) (λ e. refl) owns)
  Step-Owns {rows} {after} (release seen j c t m event h) owns =
      let (x, _, _, _, written) = release-ok lower seen rows j c t m event after h in
      subst (Owns name key i) written (
        update-Owns name key i (has_id j) (release_row lower c t m x.attempts) rows (λ e. refl)
          (λ e. refl) owns)

  Later-Owns :
      {rows after : Table} → Later lower rows after → Owns name key i rows → Owns name key i after
  Later-Owns here owns = owns
  Later-Owns (later before step) owns = Step-Owns step (Later-Owns before owns)

first-Owns :
    (rows : Table) (now : ℕ) (event : OutboxEvent) (first : InsertReplayResult OutboxEvent)
    (after : Table)
    → enqueue_outbox_event rows now event ≡ ok (first, after)
    → Owns event.event_name event.idempotency_key first.value.id after
unfolding enqueue_outbox_event
first-Owns rows now event first after h =
    let checked : leb 1 event.schema_version ≡ true = ground arith in
    elim (Option-cases (find (same_key event) rows)) [
      | inr (owner, taken) ↦
          let same : rows ≡ after = ground arith in
          let value : owner ≡ first.value = ground arith in
          record { owner = owner; found = rw (← same) taken; identity = ap (λ x. x.id) value }
      | inl free ↦ elim (Bool-cases (any (has_id event.id) rows)) [
        | inl clash ↦ absurd (ground arith)
        | inr new_id ↦
            let row = fresh_row now event in
            let same : (rows ++ row ∷ []) ≡ after = ground arith in
            let value : row ≡ first.value = ground arith in
            let found : find (same_key event) (rows ++ row ∷ []) ≡ some row =
              find-append (same_key event) rows (row ∷ []) free ∙ rw (has_key_self event) in
            record { owner = row; found = rw (← same) found; identity = ap (λ x. x.id) value }
      ]
    ]

-- Once a call with an event's name and key has returned, every later call with the same name and key
-- and a positive schema version, whatever the transactions in between and its time and other fields,
-- says that it inserted nothing, leaves the table as it is, and returns the row of the first call: the
-- row that the table has under the same identifier.
pub enqueue_replays :
    (lower : Text → Text) (rows : Table) (now at : ℕ) (event again : OutboxEvent)
    (first : InsertReplayResult OutboxEvent) (after final : Table)
    → enqueue_outbox_event rows now event ≡ ok (first, after)
    → Later lower after final
    → again.event_name ≡ event.event_name
    → again.idempotency_key ≡ event.idempotency_key
    → leb 1 again.schema_version ≡ true
    → (owner : OutboxEvent) × (enqueue_outbox_event final at again
        ≡ ok (record { value = owner; inserted = false }, final))
      × (owner.id ≡ first.value.id)
unfolding enqueue_outbox_event
enqueue_replays lower rows now at event again first after final h later_on same_name same_idem
      positive =
    let owns =
      Later-Owns lower event.event_name event.idempotency_key first.value.id later_on
        (first-Owns rows now event first after h) in
    let there : find (same_key again) final ≡ some owns.owner =
      subst₂ (λ n k. find (has_key n k) final ≡ some owns.owner) (sym same_name) (sym same_idem)
        owns.found in
    (owns.owner, ground arith, owns.identity)
