-- ===== src/Delivery/Sent.antt =====
-- `OutboxDeliveryWorkflow.deliver`: which rows a run marks as published.
use shiptawk_be.Prelude.{
  ℕ, ◌+◌, ◌≤◌, ◌≡◌, refl, sym, subst, ap, ◌∙◌, ◌⊎◌, inl, inr, Bool, true, false, ◌&&◌, Option, none,
  some, List, [], ◌∷◌, map, arith, find, find-update, find-update-some, find-update-none,
  find-holds, any, ◌==◌, ==_iff, Bool-cases, Option-cases,
}
use shiptawk_be.Text.{Text}
use shiptawk_be.Outbox.{
  OutboxEvent, Table, published, has_id, in_batch, selected, lease_row, publish_row, release_row,
  publishing_event, mark_outbox_event_published, release_outbox_event_for_retry,
}
use shiptawk_be.Delivery.{
  Run, Met, delay_seconds, microseconds, transport, lease_duration, deliver_event, deliver_loop,
  deliver,
}
use shiptawk_be.Delivery.Totals.{leased, chosen, deliver_lem}

abbrev pub published_row : Option OutboxEvent → Bool
published_row none = false
published_row (some e) = elim e.status [ published ↦ true | _ ↦ false ]

-- The row of an identifier is published.
abbrev pub is_published : ℕ → Table → Bool
is_published i rows = published_row (find (has_id i) rows)

-- A claim publishes nothing.
leased-published :
    (locked : ℕ → Bool) (limit now lease : ℕ) (workspace : Option ℕ) (rows : Table) (j : ℕ)
    → is_published j (leased locked limit now lease workspace rows) ≡ true
    → is_published j rows ≡ true
unfolding leased lease_row
leased-published locked limit now lease workspace rows j h =
    elim (Option-cases (find (has_id j) rows)) [
      | inl gone ↦
          let row =
            find-update-none (has_id j) (in_batch (chosen locked limit now lease workspace rows))
              (lease_row now lease) (λ y. refl) rows gone in
          ground arith
      | inr (x, there) ↦
          let row =
            find-update-some (has_id j) (in_batch (chosen locked limit now lease workspace rows))
              (lease_row now lease) (λ y. refl) rows x there in
          ground arith
    ]

-- No transaction of another worker publishes this row while the publisher answers.
abbrev pub IsOurs : (OutboxEvent → Table → Met) → ℕ → Type 0
IsOurs meanwhile j =
    (e : OutboxEvent) (rows : Table)
    → is_published j (meanwhile e rows).rows ≡ true
    → is_published j rows ≡ true

module _ (lower : Text → Text) (takes : OutboxEvent → Bool) (meanwhile : OutboxEvent → Table → Met)
    (max_attempts now : ℕ) where
  -- An event with the identifier, accepted by the publisher.
  abbrev pub accepted : ℕ → OutboxEvent → Bool
  accepted j e = has_id j e && takes e

  -- The row of the handled event itself, and of any other.
  own-published :
      (e : OutboxEvent) (run : Run)
      → takes e ≡ false
      → is_published e.id (deliver_event lower takes meanwhile max_attempts now e run).rows ≡ true
      → is_published e.id (meanwhile e run.rows).rows ≡ true
  unfolding deliver_event release_outbox_event_for_retry publishing_event release_row
  own-published e run refused h =
      let met = meanwhile e run.rows in
      elim (Option-cases (find (has_id e.id) met.seen)) [
        | inl unread ↦ ground arith
        | inr (x, read) ↦
            let row =
              release_row lower transport (now + microseconds (delay_seconds e.attempts))
                max_attempts x.attempts in
            elim (Option-cases (find (has_id e.id) met.rows)) [
              | inl gone ↦
                  let none_written =
                    find-update-none (has_id e.id) (has_id e.id) row (λ y. refl) met.rows gone in
                  ground arith
              | inr (y, there) ↦
                  let freed =
                    find-update-some (has_id e.id) (has_id e.id) row (λ z. refl) met.rows y there in
                  let hit = find-holds (has_id e.id) met.rows there in ground arith
            ]
      ]

  other-published :
      (j : ℕ) (e : OutboxEvent) (run : Run)
      → (e.id == j) ≡ false
      → find (has_id j) (deliver_event lower takes meanwhile max_attempts now e run).rows
        ≡ find (has_id j) (meanwhile e run.rows).rows
  unfolding deliver_event mark_outbox_event_published release_outbox_event_for_retry
      publishing_event publish_row release_row
  other-published j e run other =
      let met = meanwhile e run.rows in
      let marked =
        find-update (has_id j) (has_id e.id) (publish_row now) (λ y. refl) (λ x hit. ground arith)
          met.rows in
      elim (Option-cases (find (has_id e.id) met.seen)) [
        | inl unread ↦ ground arith
        | inr (x, read) ↦
            let row =
              release_row lower transport (now + microseconds (delay_seconds e.attempts))
                max_attempts x.attempts in
            let freed =
              find-update (has_id j) (has_id e.id) row (λ y. refl) (λ y hit. ground arith)
                met.rows in
            ground arith
      ]

  deliver_event-published :
      (j : ℕ) (e : OutboxEvent) (run : Run)
      → IsOurs meanwhile j
      → is_published j (deliver_event lower takes meanwhile max_attempts now e run).rows ≡ true
      → (is_published j run.rows ≡ true) ⊎ (accepted j e ≡ true)
  deliver_event-published j e run mine h = elim (Bool-cases (e.id == j)) [
    | inr other ↦ inl (mine e run.rows (ap published_row (sym (other-published j e run other)) ∙ h))
    | inl same ↦ elim (Bool-cases (takes e)) [
      | inl took ↦ inr (rw (same, took))
      | inr refused ↦ inl (
          mine e run.rows (
            subst
              (λ k.
                is_published k (deliver_event lower takes meanwhile max_attempts now e run).rows
                  ≡ true
                → is_published k (meanwhile e run.rows).rows ≡ true)
              ((==_iff e.id j).0 same) (own-published e run refused) h))
    ]
  ]

  pub deliver_loop-published :
      (j : ℕ) (es : List OutboxEvent) (run : Run)
      → IsOurs meanwhile j
      → is_published j (deliver_loop lower takes meanwhile max_attempts now es run).rows ≡ true
      → (is_published j run.rows ≡ true) ⊎ (any (accepted j) es ≡ true)
  unfolding deliver_loop
  deliver_loop-published j [] run mine h = inl h
  deliver_loop-published j (e ∷ es) run mine h =
      let next = deliver_event lower takes meanwhile max_attempts now e run in
      elim (Option-cases next.raised) [
        | inl clean ↦
            let h' : is_published j
                  (deliver_loop lower takes meanwhile max_attempts now es next).rows
                ≡ true =
              ground arith in
            elim (deliver_loop-published j es next mine h') [
              | inl before ↦ elim (deliver_event-published j e run mine before) [
                | inl b ↦ inl b
                | inr t ↦ inr (ground arith)
              ]
              | inr t ↦ inr (ground arith)
            ]
        | inr (x, raised) ↦
            let h' : is_published j next.rows ≡ true = ground arith in
            elim (deliver_event-published j e run mine h') [
              | inl b ↦ inl b
              | inr t ↦ inr (ground arith)
            ]
      ]

-- In a delivery over any table, with a positive batch size, whatever other workers write meanwhile: a
-- row that no other worker publishes meanwhile and that is published at the end was published before,
-- or its event is in the batch that the run claimed and the publisher accepted it.
pub published_was_accepted :
    (lower : Text → Text) (takes : OutboxEvent → Bool) (meanwhile : OutboxEvent → Table → Met)
    (max_attempts now : ℕ) (locked : ℕ → Bool) (batch_size : ℕ) (rows : Table) (j : ℕ)
    → IsOurs meanwhile j
    → 1 ≤ batch_size
    → is_published j (deliver lower takes meanwhile max_attempts now locked batch_size rows).rows
      ≡ true
    → (is_published j rows ≡ true)
      ⊎ (any
            (λ e. has_id j e && takes e)
            (map (lease_row now lease_duration) (selected locked batch_size now none rows))
          ≡ true)
unfolding chosen
published_was_accepted lower takes meanwhile max_attempts now locked batch_size rows j mine size h =
    elim (deliver_loop-published lower takes meanwhile max_attempts now j _ _ mine (
      subst (λ run. is_published j run.rows ≡ true)
        (deliver_lem lower takes meanwhile max_attempts now locked batch_size rows size) h)) [
          | inl before ↦
              inl (leased-published locked batch_size now lease_duration none rows j before)
          | inr taken ↦ inr taken
        ]
