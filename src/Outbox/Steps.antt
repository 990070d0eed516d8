-- ===== src/Outbox/Steps.antt =====
-- The transactions of app/db/outbox.py in any interleaving.
use shiptawk_be.Prelude.{
  ℕ, ◌≡◌, leb, ◌==◌, refl, sym, Bool, true, false, ◌&&◌, not, ◌⊎◌, ◌∙◌, Option, some, [], ◌∷◌, ◌++◌,
  arith, find, find-append_some, find-update, any, any-of_All, update, ok, ==_iff, All, All-mono,
  All-of_unique, Bool-cases, Option-cases, inl, inr, subst,
}
use shiptawk_be.Text.{Text}
use shiptawk_be.Idempotency.{InsertReplayResult}
use shiptawk_be.Outbox.{
  OutboxEvent, Table, publishing, published, failed, has_id, same_key, fresh_row, lease_row,
  publish_row, release_row, in_batch, claimable, selected, publishing_event, enqueue_outbox_event,
  claim_outbox_events, mark_outbox_event_published, release_outbox_event_for_retry,
}
use shiptawk_be.Outbox.Rows.{
  IsValid, []-IsValid, lease-IsValid, publish-IsValid, release-IsValid, append-IsValid,
}
use shiptawk_be.Outbox.Leases.{selected-All, claim-ok}

module _ (lower : Text → Text) where
  -- One committed transaction of any worker or request. What a publication or a release has read may
  -- be any table, an older one too.
  pub data Step (rows : Table) : Table → Type 0 where
    enqueue :
        (now : ℕ) (event : OutboxEvent) (result : InsertReplayResult OutboxEvent) {after : Table}
        → enqueue_outbox_event rows now event ≡ ok (result, after)
        → Step rows after
    claim :
        (locked : ℕ → Bool) (limit lease now : ℕ) (workspace : Option ℕ) (batch : Table)
        {after : Table}
        → claim_outbox_events locked rows limit lease now workspace ≡ ok (batch, after)
        → Step rows after
    publish :
        (seen : Table) (event_id at : ℕ) (event : OutboxEvent) {after : Table}
        → mark_outbox_event_published seen rows event_id at ≡ ok (event, after)
        → Step rows after
    release :
        (seen : Table) (event_id : ℕ) (category : Text) (available max_attempts : ℕ)
        (event : OutboxEvent) {after : Table}
        → release_outbox_event_for_retry lower seen rows event_id category available max_attempts
          ≡ ok (event, after)
        → Step rows after

  pub data Reach : Table → Type 0 where
    start : Reach []
    next : {rows after : Table} → Reach rows → Step rows after → Reach after

  enqueue-IsValid :
      (rows : Table) (now : ℕ) (event : OutboxEvent) (result : InsertReplayResult OutboxEvent)
      (after : Table)
      → enqueue_outbox_event rows now event ≡ ok (result, after)
      → IsValid rows
      → IsValid after
  unfolding enqueue_outbox_event
  enqueue-IsValid rows now event result after e v =
      let checked : leb 1 event.schema_version ≡ true = ground arith in
      elim (Option-cases (find (same_key event) rows)) [
        | inr (owner, taken) ↦ let same : rows ≡ after = ground arith in subst IsValid same v
        | inl free ↦ elim (Bool-cases (any (has_id event.id) rows)) [
          | inl clash ↦ absurd (ground arith)
          | inr new_id ↦
              let same : (rows ++ fresh_row now event ∷ []) ≡ after = ground arith in
              subst IsValid same (append-IsValid rows (fresh_row now event) refl free new_id v)
        ]
      ]

  pub publish-ok :
      (seen rows : Table) (i at : ℕ) (event : OutboxEvent) (after : Table)
      → mark_outbox_event_published seen rows i at ≡ ok (event, after)
      → (e : OutboxEvent) × (find (has_id i) seen ≡ some e)
        × (e.status ≡ publishing)
        × (event ≡ publish_row at e)
        × (update (has_id i) (publish_row at) rows ≡ after)
  unfolding mark_outbox_event_published publishing_event
  publish-ok seen rows i at event after h = elim (Option-cases (find (has_id i) seen)) [
    | inl gone ↦ absurd (ground arith)
    | inr (e, there) ↦ (e, there, ground arith, ground arith, ground arith)
  ]

  pub release-ok :
      (seen rows : Table) (i : ℕ) (c : Text) (t m : ℕ) (event : OutboxEvent) (after : Table)
      → release_outbox_event_for_retry lower seen rows i c t m ≡ ok (event, after)
      → (e : OutboxEvent) × (find (has_id i) seen ≡ some e)
        × (e.status ≡ publishing)
        × (event ≡ release_row lower c t m e.attempts e)
        × (update (has_id i) (release_row lower c t m e.attempts) rows ≡ after)
  unfolding release_outbox_event_for_retry publishing_event
  release-ok seen rows i c t m event after h = elim (Option-cases (find (has_id i) seen)) [
    | inl gone ↦ absurd (ground arith)
    | inr (e, there) ↦ (e, there, ground arith, ground arith, ground arith)
  ]

  pub Step-IsValid : {rows after : Table} → Step rows after → IsValid rows → IsValid after
  Step-IsValid {rows} {after} (enqueue now event result e) v =
      enqueue-IsValid rows now event result after e v
  Step-IsValid {rows} {after} (claim locked limit lease now workspace batch e) v =
      let claimed = claim-ok locked rows limit lease now workspace batch after e in
      subst IsValid claimed.3
        (lease-IsValid (in_batch (selected locked limit now workspace rows)) now lease rows v)
  Step-IsValid {rows} {after} (publish seen i at event e) v =
      let (_, _, _, _, written) = publish-ok seen rows i at event after e in
      subst IsValid written (publish-IsValid (has_id i) at rows v)
  Step-IsValid {rows} {after} (release seen i c t m event e) v =
      let (x, _, _, _, written) = release-ok seen rows i c t m event after e in
      subst IsValid written (release-IsValid lower c t m x.attempts (has_id i) rows v)

  -- In every table that any interleaving of committed transactions reaches from the empty one, a row
  -- has a lease exactly if it is publishing, identifiers are unique, and so are the pairs of event
  -- name and idempotency key.
  pub Reach-IsValid : {rows : Table} → Reach rows → IsValid rows
  Reach-IsValid start = []-IsValid
  Reach-IsValid (next r s) = Step-IsValid s (Reach-IsValid r)

  -- The rows with the identifier of a settled row are that row, so no claim selects one.
  not_selected :
      (locked : ℕ → Bool) (limit now : ℕ) (workspace : Option ℕ) (rows : Table) (i : ℕ)
      (e : OutboxEvent)
      → All (λ x. has_id i x ≡ true → x ≡ e) rows
      → (e.status ≡ published) ⊎ (e.status ≡ failed)
      → All (λ x. has_id i x ≡ false) (selected locked limit now workspace rows)
  not_selected locked limit now workspace rows i e only settled =
      selected-All (λ x. has_id i x ≡ false) locked limit now workspace rows
        (All-mono _ _ (λ x same due. other x same due) rows only)
    where
      settled_not_due : (claimable now workspace e && not (locked e.id)) ≡ true → ⊥
      settled_not_due due = unfold claimable in ground arith

      other :
          (x : OutboxEvent)
          → (has_id i x ≡ true → x ≡ e)
          → (claimable now workspace x && not (locked x.id)) ≡ true
          → has_id i x ≡ false
      other x same due = elim (Bool-cases (has_id i x)) [
        | inr miss ↦ miss
        | inl hit ↦ absurd (
            settled_not_due
              (subst (λ y. (claimable now workspace y && not (locked y.id)) ≡ true) (same hit) due))
      ]

  -- Whether a transaction is a publication or a release of this row whose read saw it publishing.
  abbrev pub Overwrites : {rows after : Table} → ℕ → Step rows after → Type 0
  Overwrites i (enqueue now event result h) = ⊥
  Overwrites i (claim locked limit lease now workspace batch h) = ⊥
  Overwrites i (publish seen j at event h) =
      (j ≡ i) × ((e : OutboxEvent) × (find (has_id i) seen ≡ some e) × (e.status ≡ publishing))
  Overwrites i (release seen j c t m event h) =
      (j ≡ i) × ((e : OutboxEvent) × (find (has_id i) seen ≡ some e) × (e.status ≡ publishing))

  -- A transaction leaves a published or failed row of a reachable table as it is in every column, unless
  -- it is a publication or a release of that row whose read, which takes no lock, still saw the row
  -- publishing.
  pub Step-settled :
      {rows after : Table} (i : ℕ) (e : OutboxEvent)
      → Reach rows
      → (step : Step rows after) → find (has_id i) rows ≡ some e
      → (e.status ≡ published) ⊎ (e.status ≡ failed)
      → (find (has_id i) after ≡ some e) ⊎ Overwrites i step
  unfolding enqueue_outbox_event lease_row publish_row release_row
  Step-settled {rows} {after} i e r (enqueue now event result h) found settled =
      let checked : leb 1 event.schema_version ≡ true = ground arith in
      elim (Option-cases (find (same_key event) rows)) [
        | inr (owner, taken) ↦ let same : rows ≡ after = ground arith in inl (rw (← same) found)
        | inl free ↦ elim (Bool-cases (any (has_id event.id) rows)) [
          | inl clash ↦ absurd (ground arith)
          | inr new_id ↦
              let same : (rows ++ fresh_row now event ∷ []) ≡ after = ground arith in
              inl (rw (← same) (find-append_some (has_id i) rows (fresh_row now event ∷ []) found))
        ]
      ]
  Step-settled {rows} {after} i e r (claim locked limit lease now workspace batch h) found settled =
      let chosen = selected locked limit now workspace rows in
      let claimed = claim-ok locked rows limit lease now workspace batch after h in
      let only = All-of_unique (has_id i) rows e ((Reach-IsValid r).ids i) found in
      let absent : any (has_id i) chosen ≡ false =
        any-of_All (has_id i) chosen
          (not_selected locked limit now workspace rows i e only settled) in
      inl (
        rw (← claimed.3) (
          find-update (has_id i) (in_batch chosen) (lease_row now lease) (λ x. refl)
            (λ x hit.
              subst (λ j. any (has_id j) chosen ≡ false) (sym ((==_iff x.id i).0 hit)) absent)
            rows
          ∙ found))
  Step-settled {rows} {after} i e r (publish seen j at event h) found settled =
      let (old, there, busy, _, same) = publish-ok seen rows j at event after h in
      elim (Bool-cases (j == i)) [
        | inl own ↦
            let own_row : j ≡ i = (==_iff j i).0 own in
            inr (own_row, (old, subst (λ k. find (has_id k) seen ≡ some old) own_row there, busy))
        | inr other ↦ inl (
            rw (← same) (
              find-update (has_id i) (has_id j) (publish_row at) (λ x. refl) (λ x hit. ground arith)
                rows
              ∙ found))
      ]
  Step-settled {rows} {after} i e r (release seen j c t m event h) found settled =
      let (old, there, busy, _, same) = release-ok seen rows j c t m event after h in
      elim (Bool-cases (j == i)) [
        | inl own ↦
            let own_row : j ≡ i = (==_iff j i).0 own in
            inr (own_row, (old, subst (λ k. find (has_id k) seen ≡ some old) own_row there, busy))
        | inr other ↦ inl (
            rw (← same) (
              find-update (has_id i) (has_id j) (release_row lower c t m old.attempts) (λ x. refl)
                (λ x hit. ground arith) rows
              ∙ found))
      ]

  -- What comes after a table.
  pub data Later (rows : Table) : Table → Type 0 where
    here : Later rows rows
    later : {mid after : Table} → Later rows mid → Step mid after → Later rows after
