-- ===== src/Delivery/Totals.antt =====
-- `OutboxDeliveryWorkflow.deliver`: the counts of a whole run, and the rows that it claimed.
use shiptawk_be.Prelude.{
  ℕ, ◌+◌, ◌≤◌, ◌≡◌, refl, sym, subst, Bool, true, false, not, ◌&&◌, Option, none, map, arith,
  length, keep, count, any, update, sorted, All, All-both, All-mono, All-any_self, All-map,
  All-of_map, find-of_any, find-update-some, find-holds, count-take-le, count-sorted, count-keep-le,
  length-map_self, count-map, ==_iff, ==_self,
}
use shiptawk_be.Text.{Text}
use shiptawk_be.Outbox.{
  OutboxEvent, Table, has_id, in_batch, lease_row, claimable, claimed_before, selected,
  claim_outbox_events,
}
use shiptawk_be.Outbox.Rows.{IsValid}
use shiptawk_be.Outbox.Leases.{selected-All, selected-IsDue}
use shiptawk_be.Delivery.{Run, Met, lease_duration, deliver_loop, start_run, deliver}
use shiptawk_be.Delivery.Loop.{held, IsLeft, Completes, deliver_loop-Completes}

module _ (locked : ℕ → Bool) (limit now lease : ℕ) (workspace : Option ℕ) (rows : Table) where
  unfoldable pub chosen : Table
  chosen = selected locked limit now workspace rows

  unfoldable pub leased : Table
  leased = update (in_batch chosen) (lease_row now lease) rows

  -- A selected row is publishing in the table that the claim leaves.
  selected-held : All (λ e. held e.id leased ≡ true) chosen
  unfolding chosen leased lease_row
  selected-held =
      All-both (λ e. any (has_id e.id) rows ≡ true) (λ e. any (λ x. has_id e.id x) chosen ≡ true) _
        (λ e there picked. at e.id there picked) chosen
        (selected-All _ locked limit now workspace rows (
          All-mono _ _ (λ e h _. h) rows
            (All-any_self (λ x y. has_id x.id y) (λ x. ==_self x.id) rows)))
        (All-any_self (λ x y. has_id x.id y) (λ x. ==_self x.id) chosen)
    where
      at :
          (i : ℕ) → any (has_id i) rows ≡ true → any (has_id i) chosen ≡ true → held i leased ≡ true
      at i there picked =
          let (x, found) = find-of_any (has_id i) rows there in
          let hit = find-holds (has_id i) rows found in
          let here =
            subst (λ j. any (has_id j) chosen ≡ true) (sym ((==_iff x.id i).0 hit)) picked in
          let row =
            find-update-some (has_id i) (in_batch chosen) (lease_row now lease) (λ y. refl) rows x
              found in
          ground arith

  selected_unique : IsValid rows → (i : ℕ) → count (has_id i) chosen ≤ 1
  unfolding chosen selected
  selected_unique v i =
      let due = λ (x : OutboxEvent). claimable now workspace x && not (locked x.id) in
      omega (
        arith,
        v.ids i,
        count-keep-le (has_id i) due rows,
        count-sorted claimed_before (has_id i) (keep due rows),
        count-take-le (has_id i) limit (sorted claimed_before (keep due rows)),
      )

module _ (lower : Text → Text) (takes : OutboxEvent → Bool) (meanwhile : OutboxEvent → Table → Met)
    (max_attempts now : ℕ) (locked : ℕ → Bool) (batch_size : ℕ) (rows : Table) where
  abbrev picked : Table
  picked = chosen locked batch_size now lease_duration none rows

  abbrev batch : Table
  batch = map (lease_row now lease_duration) picked

  abbrev begun : Run
  begun = record (start_run (leased locked batch_size now lease_duration none rows)) {
    claimed = length batch;
  }

  abbrev ours : ℕ → Bool
  ours j = any (has_id j) picked

  -- A delivery with a positive batch size is the loop over what its claim returns.
  pub deliver_lem :
      1 ≤ batch_size
      → deliver lower takes meanwhile max_attempts now locked batch_size rows
        ≡ deliver_loop lower takes meanwhile max_attempts now batch begun
  unfolding deliver claim_outbox_events chosen leased
  deliver_lem size = ground arith

  batch-held : All (λ e. held e.id begun.rows ≡ true) batch
  unfolding lease_row
  batch-held =
      All-map (λ e. held e.id begun.rows ≡ true) (lease_row now lease_duration) picked
        (selected-held locked batch_size now lease_duration none rows)

  batch-ours : All (λ e. ours e.id ≡ true) batch
  unfolding lease_row
  batch-ours =
      All-map (λ e. ours e.id ≡ true) (lease_row now lease_duration) picked
        (All-any_self (λ x y. has_id x.id y) (λ x. ==_self x.id) picked)

  batch_unique : IsValid rows → (i : ℕ) → count (has_id i) batch ≤ 1
  unfolding lease_row
  batch_unique v i =
      rw (count-map (has_id i) (lease_row now lease_duration) (λ x. refl) picked)
        (selected_unique locked batch_size now lease_duration none rows v i)

  pub deliver-Completes :
      ((j : ℕ) → ours j ≡ true → IsLeft meanwhile j)
      → 1 ≤ max_attempts
      → 1 ≤ batch_size
      → IsValid rows
      → Completes ours batch begun
          (deliver lower takes meanwhile max_attempts now locked batch_size rows)
  deliver-Completes quiet positive size v = rw (deliver_lem size) (
      deliver_loop-Completes lower takes meanwhile max_attempts now ours quiet positive batch begun
        refl batch-ours batch-held (batch_unique v))

-- A delivery over a table that keeps its constraints, with a positive batch size and retry limit, raises
-- nothing, whatever the publisher accepts, if no other worker writes a row of its batch while the
-- publisher answers, whatever they do to other rows. It claims at most `batch_size` events. Each
-- claimed event is counted exactly once, as published, retried or failed, and at the end none of the
-- rows that it claimed is still publishing.
pub deliver_accounts :
    (lower : Text → Text) (takes : OutboxEvent → Bool) (meanwhile : OutboxEvent → Table → Met)
    (max_attempts now : ℕ) (locked : ℕ → Bool) (batch_size : ℕ) (rows : Table)
    → ((j : ℕ)
        → any (has_id j) (selected locked batch_size now none rows) ≡ true
        → IsLeft meanwhile j)
    → 1 ≤ max_attempts
    → 1 ≤ batch_size
    → IsValid rows
    → let run = deliver lower takes meanwhile max_attempts now locked batch_size rows in
      (run.raised ≡ none)
      × (run.claimed ≤ batch_size)
      × (run.published_count + run.retried + run.failed_count ≡ run.claimed)
      × All (λ e. held e.id run.rows ≡ false) (selected locked batch_size now none rows)
unfolding chosen lease_row
deliver_accounts lower takes meanwhile max_attempts now locked batch_size rows quiet positive size
      v =
    let picked = selected locked batch_size now none rows in
    let done =
      deliver-Completes lower takes meanwhile max_attempts now locked batch_size rows quiet positive
        size v in
    let within = (selected-IsDue locked batch_size now none rows).1 in
    (
      done.no_error,
      omega (arith, done.claimed, length-map_self (lease_row now lease_duration) picked, within),
      omega (arith, done.claimed, done.counted),
      All-of_map
          (λ e.
            held e.id (deliver lower takes meanwhile max_attempts now locked batch_size rows).rows
            ≡ false)
          (lease_row now lease_duration) picked done.released,
    )
