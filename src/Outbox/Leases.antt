-- ===== src/Outbox/Leases.antt =====
-- `claim_outbox_events`: what a worker is given, and leases.
use shiptawk_be.Prelude.{
  ℕ, ◌≤◌, ◌<◌, ◌≡◌, refl, Bool, true, false, ◌&&◌, not, Option, some, map, arith, length, take,
  keep, count, find, update, ok, sorted, length-sorted, length-take, All, All-keep, All-take,
  All-sorted, any-map, All-intro, subst, ◌∙◌, take_all, length-keep-le, count-sorted,
  any-of_count_pos, count-keep_found,
}
use shiptawk_be.Outbox.{
  OutboxEvent, Table, publishing, has_id, lease_row, in_batch, in_workspace, claimable,
  claimed_before, selected, claim_outbox_events,
}

-- A row that a claim may return.
abbrev pub IsDue : ℕ → Option ℕ → (ℕ → Bool) → OutboxEvent → Type 0
IsDue now workspace locked e =
    (e.available_at ≤ now)
    × (claimable now workspace e ≡ true)
    × (in_workspace workspace e ≡ true)
    × (locked e.id ≡ false)

IsDue-of_kept :
    (now : ℕ) (workspace : Option ℕ) (locked : ℕ → Bool) (e : OutboxEvent)
    → (claimable now workspace e && not (locked e.id)) ≡ true
    → IsDue now workspace locked e
unfolding claimable
IsDue-of_kept now workspace locked e h = (ground arith, ground arith, ground arith, ground arith)

pub selected-All :
    (P : OutboxEvent → Type 0) (locked : ℕ → Bool) (limit now : ℕ) (workspace : Option ℕ)
    (rows : Table)
    → All (λ e. (claimable now workspace e && not (locked e.id)) ≡ true → P e) rows
    → All P (selected locked limit now workspace rows)
unfolding selected
selected-All P locked limit now workspace rows h =
    All-take P limit _ (All-sorted P claimed_before _ (All-keep P _ rows h))

-- A selection holds at most `limit` rows, each of them due, unlocked and of the workspace.
pub selected-IsDue :
    (locked : ℕ → Bool) (limit now : ℕ) (workspace : Option ℕ) (rows : Table)
    → All (IsDue now workspace locked) (selected locked limit now workspace rows)
      × (length (selected locked limit now workspace rows) ≤ limit)
unfolding selected
selected-IsDue locked limit now workspace rows = (
  selected-All (IsDue now workspace locked) locked limit now workspace rows
      (All-intro _ (IsDue-of_kept now workspace locked) rows),
  omega (
    arith,
    length-take limit
        (sorted claimed_before (keep (λ e. claimable now workspace e && not (locked e.id)) rows)),
  ),
)

due_of_expired :
    (now ended : ℕ) (workspace : Option ℕ) (locked : ℕ → Bool) (e : OutboxEvent)
    → e.status ≡ publishing
    → e.lease_expires_at ≡ some ended
    → ended ≤ now
    → e.available_at ≤ now
    → in_workspace workspace e ≡ true
    → locked e.id ≡ false
    → (claimable now workspace e && not (locked e.id)) ≡ true
unfolding claimable
due_of_expired now ended workspace locked e st le over due here free = ground arith

-- A claim that returns: its arguments were positive, and what it returns and writes.
pub claim-ok :
    (locked : ℕ → Bool) (rows : Table) (limit lease now : ℕ) (workspace : Option ℕ)
    (batch after : Table)
    → claim_outbox_events locked rows limit lease now workspace ≡ ok (batch, after)
    → (1 ≤ limit)
      × (1 ≤ lease)
      × (map (lease_row now lease) (selected locked limit now workspace rows) ≡ batch)
      × (update (in_batch (selected locked limit now workspace rows)) (lease_row now lease) rows
          ≡ after)
unfolding claim_outbox_events
claim-ok locked rows limit lease now workspace batch after h = ground arith

in_batch-map :
    (now lease : ℕ) (batch : Table) (e : OutboxEvent)
    → in_batch (map (lease_row now lease) batch) e ≡ in_batch batch e
unfolding lease_row
in_batch-map now lease batch e = any-map (has_id e.id) (lease_row now lease) (λ x. refl) batch

-- A crashed worker's event is delivered again: a publishing row whose lease has ended by `now`, due,
-- in the workspace and not locked, is in the batch of a claim whose limit the table fits into.
pub expired_reclaimed :
    (locked : ℕ → Bool) (rows : Table) (limit lease now ended : ℕ) (workspace : Option ℕ)
    (e : OutboxEvent) (batch after : Table)
    → claim_outbox_events locked rows limit lease now workspace ≡ ok (batch, after)
    → find (has_id e.id) rows ≡ some e
    → e.status ≡ publishing
    → e.lease_expires_at ≡ some ended
    → ended ≤ now
    → e.available_at ≤ now
    → in_workspace workspace e ≡ true
    → locked e.id ≡ false
    → length rows ≤ limit
    → in_batch batch e ≡ true
unfolding selected
expired_reclaimed locked rows limit lease now ended workspace e batch after claimed found st le over
      due here free room =
    let due_now = λ (x : OutboxEvent). claimable now workspace x && not (locked x.id) in
    let claim_ok = claim-ok locked rows limit lease now workspace batch after claimed in
    let ordered = sorted claimed_before (keep due_now rows) in
    let fits : length ordered ≤ limit =
      omega
        (arith, length-sorted claimed_before (keep due_now rows), length-keep-le due_now rows) in
    let there : 0 < count (has_id e.id) (keep due_now rows) =
      count-keep_found (has_id e.id) due_now rows e found
        (due_of_expired now ended workspace locked e st le over due here free) in
    let counted : 0 < count (has_id e.id) (take limit ordered) =
      rw
        (take_all limit ordered fits, count-sorted claimed_before (has_id e.id) (keep due_now rows))
        there in
    subst (λ b. in_batch b e ≡ true) claim_ok.2
      (in_batch-map now lease (take limit ordered) e
        ∙ any-of_count_pos (has_id e.id) (take limit ordered) counted)
