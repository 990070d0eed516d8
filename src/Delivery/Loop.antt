-- ===== src/Delivery/Loop.antt =====
-- The loop of `OutboxDeliveryWorkflow.deliver`: one event, and what it leaves of the other rows.
use shiptawk_be.Prelude.{
  ℕ, suc, ◌+◌, ◌≤◌, ◌≡◌, refl, ap, ◌∙◌, Bool, true, false, Option, none, some, List, [], ◌∷◌, arith,
  length, count, find, find-update, find-update-some, find-holds, All, All-both, All-of_count, ◌==◌,
  ==_iff, ==_self, Option-cases, inl, inr,
}
use shiptawk_be.Text.{Text}
use shiptawk_be.Outbox.{
  OutboxEvent, Table, is_publishing, has_id, publish_row, release_row, publishing_event,
  mark_outbox_event_published, release_outbox_event_for_retry,
}
use shiptawk_be.Delivery.{
  Run, Met, delay_seconds, microseconds, transport, deliver_event, deliver_loop,
}

abbrev held_row : Option OutboxEvent → Bool
held_row none = false
held_row (some e) = is_publishing e.status

-- The row of an identifier is publishing.
abbrev pub held : ℕ → Table → Bool
held i rows = held_row (find (has_id i) rows)

-- How many events the run has counted.
abbrev pub handled : Run → ℕ
handled run = run.published_count + run.retried + run.failed_count

-- What handling an event whose row is publishing does. `ours` are the rows that no other worker writes.
pub record Handles (ours : ℕ → Bool) (e : OutboxEvent) (run next : Run) : Type 0 where
  pub no_error : next.raised ≡ none
  pub counted : handled next ≡ suc (handled run)
  pub claimed : next.claimed ≡ run.claimed
  pub released : held e.id next.rows ≡ false
  pub others :
      (j : ℕ)
      → ours j ≡ true
      → (e.id == j) ≡ false
      → find (has_id j) next.rows ≡ find (has_id j) run.rows

-- What a loop over a batch of distinct events whose rows are all publishing does.
pub record Completes (ours : ℕ → Bool) (es : List OutboxEvent) (run last : Run) : Type 0 where
  pub no_error : last.raised ≡ none
  pub counted : handled last ≡ length es + handled run
  pub claimed : last.claimed ≡ run.claimed
  pub released : All (λ e. held e.id last.rows ≡ false) es
  pub others :
      (j : ℕ)
      → ours j ≡ true
      → count (has_id j) es ≡ 0
      → find (has_id j) last.rows ≡ find (has_id j) run.rows

module _ (lower : Text → Text) (takes : OutboxEvent → Bool) (meanwhile : OutboxEvent → Table → Met)
    (max_attempts now : ℕ) where
  pub deliver_loop-cons :
      (e : OutboxEvent) (es : List OutboxEvent) (run : Run)
      → (deliver_event lower takes meanwhile max_attempts now e run).raised ≡ none
      → deliver_loop lower takes meanwhile max_attempts now (e ∷ es) run
        ≡ deliver_loop lower takes meanwhile max_attempts now es
            (deliver_event lower takes meanwhile max_attempts now e run)
  unfolding deliver_loop
  deliver_loop-cons e es run clean = ground arith

-- No transaction of another worker writes this row while the publisher answers.
abbrev pub IsLeft : (OutboxEvent → Table → Met) → ℕ → Type 0
IsLeft meanwhile j =
    (e : OutboxEvent) (rows : Table)
    → (find (has_id j) (meanwhile e rows).seen ≡ find (has_id j) rows)
      × (find (has_id j) (meanwhile e rows).rows ≡ find (has_id j) rows)

module _ (lower : Text → Text) (takes : OutboxEvent → Bool) (meanwhile : OutboxEvent → Table → Met)
    (max_attempts now : ℕ) (ours : ℕ → Bool) (quiet : (j : ℕ) → ours j ≡ true → IsLeft meanwhile j)
    (positive : 1 ≤ max_attempts) where
  apart : (i j : ℕ) → (i == j) ≡ false → (x : OutboxEvent) → has_id j x ≡ true → has_id i x ≡ false
  apart i j h x hit = ground arith

  pub deliver_event-Handles :
      (e : OutboxEvent) (run : Run)
      → run.raised ≡ none
      → ours e.id ≡ true
      → held e.id run.rows ≡ true
      → Handles ours e run (deliver_event lower takes meanwhile max_attempts now e run)
  unfolding deliver_event mark_outbox_event_published release_outbox_event_for_retry
      publishing_event publish_row release_row
  deliver_event-Handles e run clean own busy = elim (Option-cases (find (has_id e.id) run.rows)) [
    | inl gone ↦ absurd (ground arith)
    | inr (x, there) ↦
        let met = meanwhile e run.rows in
        let left = quiet e.id own e run.rows in
        let read : find (has_id e.id) met.seen ≡ some x = left.0 ∙ there in
        let written : find (has_id e.id) met.rows ≡ some x = left.1 ∙ there in
        let marked =
          find-update-some (has_id e.id) (has_id e.id) (publish_row now) (λ y. refl) met.rows x
            written in
        let freed =
          find-update-some (has_id e.id) (has_id e.id)
            (release_row lower transport (now + microseconds (delay_seconds e.attempts))
              max_attempts x.attempts)
            (λ y. refl) met.rows x written in
        let hit = find-holds (has_id e.id) met.rows written in
        record {
          no_error = ground arith;
          counted = ground arith;
          claimed = ground arith;
          released = ground arith;
          others = λ j mine other. ground (
            arith,
            (quiet j mine e run.rows).1,
            find-update (has_id j) (has_id e.id) (publish_row now) (λ y. refl) (apart e.id j other)
                met.rows,
            find-update (has_id j) (has_id e.id)
                (release_row lower transport (now + microseconds (delay_seconds e.attempts))
                  max_attempts x.attempts)
                (λ y. refl) (apart e.id j other) met.rows,
          );
        }
  ]

  pub deliver_loop-Completes :
      (es : List OutboxEvent) (run : Run)
      → run.raised ≡ none
      → All (λ e. ours e.id ≡ true) es
      → All (λ e. held e.id run.rows ≡ true) es
      → ((i : ℕ) → count (has_id i) es ≤ 1)
      → Completes ours es run (deliver_loop lower takes meanwhile max_attempts now es run)
  deliver_loop-Completes [] run clean own busy unique =
      unfold deliver_loop in
      record {
        no_error = clean;
        counted = omega arith;
        claimed = refl;
        released = tt;
        others = λ j mine h. refl;
      }
  deliver_loop-Completes (e ∷ es) run clean own busy unique =
      let next = deliver_event lower takes meanwhile max_attempts now e run in
      let h = deliver_event-Handles e run clean own.0 busy.0 in
      let alone : count (has_id e.id) es ≡ 0 = ground (arith, unique e.id, ==_self e.id) in
      let still_busy : All (λ x. held x.id next.rows ≡ true) es =
        All-both (λ x. (has_id e.id x ≡ false) × (ours x.id ≡ true))
          (λ x. held x.id run.rows ≡ true) (λ x. held x.id next.rows ≡ true)
          (λ x other b.
            ap held_row (h.others x.id other.1 (ground (arith, ==_iff x.id e.id, ==_iff e.id x.id)))
            ∙ b)
          es
          (All-both (λ x. has_id e.id x ≡ false) (λ x. ours x.id ≡ true) _ (λ x a b. (a, b)) es
            (All-of_count (has_id e.id) es alone) own.1)
          busy.1 in
      let rest =
        deliver_loop-Completes es next h.no_error own.1 still_busy
          (λ i. ground (arith, unique i)) in
      rw (deliver_loop-cons lower takes meanwhile max_attempts now e es run h.no_error) (record {
        no_error = rest.no_error;
        counted = omega (arith, rest.counted, h.counted);
        claimed = rest.claimed ∙ h.claimed;
        released = (ap held_row (rest.others e.id own.0 alone) ∙ h.released, rest.released);
        others =
            λ j mine none_left. rest.others j mine (ground arith) ∙ h.others j mine (ground arith);
      })
