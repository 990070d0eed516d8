-- ===== src/Outbox/Kept.antt =====
-- Rows that no claim selects before a time, under the operations of app/db/outbox.py.
use shiptawk_be.Prelude.{
  ℕ, ◌<◌, ◌≡◌, refl, sym, ap, ◌∙◌, Bool, true, false, ◌&&◌, not, ◌⊎◌, inl, inr, Option, none, some,
  [], ◌∷◌, ◌++◌, arith, leb, find, any, any-of_All, any-update, any-append, update, ok, ==_iff,
  ◌==◌, All, All-append, All-update, All-mono, All-intro, Bool-cases, Option-cases, subst,
}
use shiptawk_be.Idempotency.{InsertReplayResult}
use shiptawk_be.Outbox.{
  OutboxEvent, Table, publishing, published, failed, has_id, same_key, fresh_row, lease_row,
  in_batch, claimable, selected, enqueue_outbox_event, claim_outbox_events,
}
use shiptawk_be.Outbox.Leases.{selected-All, claim-ok}

abbrev pub covers : Option ℕ → ℕ → Bool
covers none end = false
covers (some t) end = leb end t

-- A row that no claim before `end` selects.
abbrev pub IsHeld : ℕ → OutboxEvent → Type 0
IsHeld end e =
    ((e.status ≡ published) ⊎ (e.status ≡ failed))
    ⊎ ((e.status ≡ publishing) × (covers e.lease_expires_at end ≡ true))

-- The identifier is taken, and its rows are held until `end`.
pub record IsKept (i end : ℕ) (rows : Table) : Type 0 where
  pub known : any (has_id i) rows ≡ true
  pub kept : All (λ e. has_id i e ≡ true → IsHeld end e) rows

held_not_due :
    (now end : ℕ) (workspace : Option ℕ) (locked : ℕ → Bool) (e : OutboxEvent)
    → now < end
    → IsHeld end e
    → (claimable now workspace e && not (locked e.id)) ≡ true
    → ⊥
unfolding claimable
held_not_due now end workspace locked e early (inl (inl s)) due = ground arith
held_not_due now end workspace locked e early (inl (inr s)) due = ground arith
held_not_due now end workspace locked e early (inr (s, c)) due =
    elim (Option-cases e.lease_expires_at) [
      | inl free ↦ ground arith
      | inr (t, lease) ↦ ground arith
    ]

-- A claim before `end` selects no row that is kept until then.
pub kept-unselected :
    (locked : ℕ → Bool) (limit now i end : ℕ) (workspace : Option ℕ) (rows : Table)
    → now < end
    → IsKept i end rows
    → any (has_id i) (selected locked limit now workspace rows) ≡ false
kept-unselected locked limit now i end workspace rows early v =
    any-of_All (has_id i) (selected locked limit now workspace rows) (
      selected-All (λ e. has_id i e ≡ false) locked limit now workspace rows
        (All-mono _ _
          (λ e held due. elim (Bool-cases (has_id i e)) [
            | inr miss ↦ miss
            | inl hit ↦ absurd (held_not_due now end workspace locked e early (held hit) due)
          ])
          rows v.kept))

-- A rewrite that leaves the rows of the identifier held.
pub update-IsKept :
    (i end : ℕ) (q : OutboxEvent → Bool) (f : OutboxEvent → OutboxEvent) (rows : Table)
    → ((e : OutboxEvent) → (f e).id ≡ e.id)
    → ((e : OutboxEvent) → q e ≡ true → has_id i e ≡ true → IsHeld end (f e))
    → IsKept i end rows
    → IsKept i end (update q f rows)
update-IsKept i end q f rows ids rewritten v = record {
  known = any-update (has_id i) q f (λ e. ap (λ j. j == i) (ids e)) rows ∙ v.known;
  kept =
      All-update (λ e. has_id i e ≡ true → IsHeld end e) q f rows
        (All-intro _ (λ e hit own. rewritten e hit (sym (ap (λ j. j == i) (ids e)) ∙ own)) rows)
        (All-mono _ _ (λ e held _. held) rows v.kept);
}

append-IsKept :
    (i end : ℕ) (rows : Table) (e : OutboxEvent)
    → any (has_id e.id) rows ≡ false
    → IsKept i end rows
    → IsKept i end (rows ++ e ∷ [])
append-IsKept i end rows e absent v = record {
  known = any-append (has_id i) rows (e ∷ []) ∙ rw (v.known) refl;
  kept =
      All-append (λ x. has_id i x ≡ true → IsHeld end x) rows (e ∷ []) v.kept
        ((λ own. absurd (clash own)), tt);
}
  where
    clash : has_id i e ≡ true → ⊥
    clash own =
        let there : any (has_id e.id) rows ≡ true =
          subst (λ j. any (has_id j) rows ≡ true) (sym ((==_iff e.id i).0 own)) v.known in
        ground arith

pub enqueue-IsKept :
    (i end : ℕ) (rows : Table) (now : ℕ) (event : OutboxEvent)
    (result : InsertReplayResult OutboxEvent) (after : Table)
    → enqueue_outbox_event rows now event ≡ ok (result, after)
    → IsKept i end rows
    → IsKept i end after
unfolding enqueue_outbox_event
enqueue-IsKept i end rows now event result after h v =
    let checked : leb 1 event.schema_version ≡ true = ground arith in
    elim (Option-cases (find (same_key event) rows)) [
      | inr (owner, taken) ↦ let same : rows ≡ after = ground arith in subst (IsKept i end) same v
      | inl free ↦ elim (Bool-cases (any (has_id event.id) rows)) [
        | inl clash ↦ absurd (ground arith)
        | inr new_id ↦
            let same : (rows ++ fresh_row now event ∷ []) ≡ after = ground arith in
            subst (IsKept i end) same (append-IsKept i end rows (fresh_row now event) new_id v)
      ]
    ]

pub claim-IsKept :
    (i end : ℕ) (locked : ℕ → Bool) (rows : Table) (limit lease now : ℕ) (workspace : Option ℕ)
    (batch after : Table)
    → claim_outbox_events locked rows limit lease now workspace ≡ ok (batch, after)
    → now < end
    → IsKept i end rows
    → IsKept i end after
unfolding lease_row
claim-IsKept i end locked rows limit lease now workspace batch after h early v =
    let chosen = selected locked limit now workspace rows in
    let absent = kept-unselected locked limit now i end workspace rows early v in
    let claimed = claim-ok locked rows limit lease now workspace batch after h in
    subst (IsKept i end) claimed.3 (
      update-IsKept i end (in_batch chosen) (lease_row now lease) rows (λ e. refl)
        (λ e hit own.
          let clash : any (has_id i) chosen ≡ true =
            subst (λ j. any (has_id j) chosen ≡ true) ((==_iff e.id i).0 own) hit in
          absurd (ground arith))
        v)
