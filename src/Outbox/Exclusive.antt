-- ===== src/Outbox/Exclusive.antt =====
-- `claim_outbox_events`: a row that is leased, or settled, is given to no other worker.
use shiptawk_be.Prelude.{
  ℕ, ◌+◌, ◌<◌, ◌≡◌, refl, sym, ap, ◌∙◌, Bool, true, false, inl, inr, Option, arith, any, any-map,
  any-of_All, any-update, any-of_count, ok, ==_iff, ◌==◌, All-of_count, All-update, All-mono,
  All-intro, Bool-cases, subst,
}
use shiptawk_be.Text.{Text}
use shiptawk_be.Outbox.{
  Table, has_id, lease_row, publish_row, release_row, in_batch, selected, claim_outbox_events,
}
use shiptawk_be.Outbox.Leases.{selected-All, claim-ok}
use shiptawk_be.Outbox.Steps.{Step, enqueue, claim, publish, release, publish-ok, release-ok}
use shiptawk_be.Outbox.Kept.{
  IsHeld, IsKept, enqueue-IsKept, claim-IsKept, update-IsKept, kept-unselected,
}

module _ (lower : Text → Text) where
  -- A transaction of a worker whose clock is before `end`, other than a release of the row.
  abbrev pub Before : {rows after : Table} → (i end : ℕ) → Step lower rows after → Type 0
  Before i end (enqueue now event result h) = Unit
  Before i end (claim locked limit lease now workspace batch h) = now < end
  Before i end (publish seen j at event h) = Unit
  Before i end (release seen j c t m event h) = (j == i) ≡ false

  -- Any number of them.
  pub data Meanwhile (i end : ℕ) (rows : Table) : Table → Type 0 where
    at_once : Meanwhile i end rows rows
    after_step :
        {mid after : Table}
        → Meanwhile i end rows mid
        → (step : Step lower mid after) → Before i end step
        → Meanwhile i end rows after

  Step-IsKept :
      {rows after : Table} (i end : ℕ) (step : Step lower rows after)
      → Before i end step
      → IsKept i end rows
      → IsKept i end after
  unfolding publish_row release_row
  Step-IsKept {rows} {after} i end (enqueue now event result h) before v =
      enqueue-IsKept i end rows now event result after h v
  Step-IsKept {rows} {after} i end (claim locked limit lease now workspace batch h) before v =
      claim-IsKept i end locked rows limit lease now workspace batch after h before v
  Step-IsKept {rows} {after} i end (publish seen j at event h) before v =
      let (_, _, _, _, written) = publish-ok lower seen rows j at event after h in
      subst (IsKept i end) written (
        update-IsKept i end (has_id j) (publish_row at) rows (λ e. refl)
          (λ e hit own. inl (inl refl)) v)
  Step-IsKept {rows} {after} i end (release seen j c t m event h) before v =
      let (x, _, _, _, written) = release-ok lower seen rows j c t m event after h in
      subst (IsKept i end) written (
        update-IsKept i end (has_id j) (release_row lower c t m x.attempts) rows (λ e. refl)
          (λ e hit own. absurd (ground (arith, ==_iff e.id j, ==_iff e.id i, ==_iff j i))) v)

  Meanwhile-IsKept :
      (i end : ℕ) {rows after : Table}
      → Meanwhile i end rows after
      → IsKept i end rows
      → IsKept i end after
  Meanwhile-IsKept i end at_once v = v
  Meanwhile-IsKept i end (after_step before step ok_step) v =
      Step-IsKept i end step ok_step (Meanwhile-IsKept i end before v)

-- What a claim leaves of a row that it returns.
claimed-IsKept :
    (i : ℕ) (locked : ℕ → Bool) (rows : Table) (limit lease now : ℕ) (workspace : Option ℕ)
    (batch after : Table)
    → claim_outbox_events locked rows limit lease now workspace ≡ ok (batch, after)
    → any (has_id i) batch ≡ true
    → IsKept i (now + lease) after
unfolding lease_row
claimed-IsKept i locked rows limit lease now workspace batch after h taken =
    let chosen = selected locked limit now workspace rows in
    let claimed = claim-ok locked rows limit lease now workspace batch after h in
    let picked : any (has_id i) chosen ≡ true =
      sym (any-map (has_id i) (lease_row now lease) (λ x. refl) chosen)
      ∙ ap (any (has_id i)) claimed.2
      ∙ taken in
    let there : any (has_id i) rows ≡ true = elim (Bool-cases (any (has_id i) rows)) [
      | inl hit ↦ hit
      | inr miss ↦
          let none_there = any-of_All (has_id i) chosen (
            selected-All (λ e. has_id i e ≡ false) locked limit now workspace rows
              (All-mono _ _ (λ e apart _. apart) rows
                (All-of_count (has_id i) rows (any-of_count (has_id i) rows miss)))) in
          absurd (ground arith)
    ] in
    subst (IsKept i (now + lease)) claimed.3 (record {
      known =
          any-update (has_id i) (in_batch chosen) (lease_row now lease) (λ x. refl) rows ∙ there;
      kept =
          All-update (λ e. has_id i e ≡ true → IsHeld (now + lease) e) (in_batch chosen)
            (lease_row now lease) rows (All-intro _ (λ e hit own. inr (refl, ground arith)) rows)
            (All-intro _
              (λ e miss own.
                let clash : any (has_id i) chosen ≡ false =
                  subst (λ j. any (has_id j) chosen ≡ false) ((==_iff e.id i).0 own) miss in
                absurd (ground arith))
              rows);
    })

-- While a row is leased, no other claim returns it. After a claim at `now` for `lease` has returned the
-- row, and any number of transactions has followed of which none releases the row and every claim is
-- at a time before `now + lease`, a claim at such a time does not return the row, whatever its limit,
-- workspace and locks.
pub claims_exclusive :
    (lower : Text → Text) (locked again : ℕ → Bool) (rows : Table)
    (limit lease now limit' lease' at i : ℕ) (workspace workspace' : Option ℕ)
    (batch after mid batch' after' : Table)
    → claim_outbox_events locked rows limit lease now workspace ≡ ok (batch, after)
    → any (has_id i) batch ≡ true
    → Meanwhile lower i (now + lease) after mid
    → at < now + lease
    → claim_outbox_events again mid limit' lease' at workspace' ≡ ok (batch', after')
    → any (has_id i) batch' ≡ false
claims_exclusive lower locked again rows limit lease now limit' lease' at i workspace workspace'
      batch after mid batch' after' first taken between early second =
    let kept =
      Meanwhile-IsKept lower i (now + lease) between
        (claimed-IsKept i locked rows limit lease now workspace batch after first taken) in
    let two = claim-ok again mid limit' lease' at workspace' batch' after' second in
    ap (any (has_id i)) (sym two.2)
    ∙ any-map (has_id i) (lease_row at lease') (λ x. unfold lease_row in refl)
        (selected again limit' at workspace' mid)
    ∙ kept-unselected again limit' at i (now + lease) workspace' mid early kept
