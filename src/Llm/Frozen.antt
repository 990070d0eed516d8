-- ===== src/Llm/Frozen.antt =====
-- The rows of executions from table to table.
use shiptawk_be.Prelude.{
  ℕ, ◌≡◌, ◌≤◌, refl, ◌∙◌, sym, subst, Bool, true, false, some, [], ◌∷◌, arith, find, any, count,
  Bool-cases, inl, inr, All, All-append, All-update, All-find, All-mono, count-append_one,
  count-update, count-of_any_none, find-append_some, find-update-some,
}
use shiptawk_be.Text.{Text, same_text-eq}
use shiptawk_be.Llm.{LlmExecution, Table, has_key, execution_clashes}
use shiptawk_be.Llm.Rows.{IsSound, IsWrite, is_completed, has_id}
use shiptawk_be.Llm.Steps.{
  Change, same, added, written, Reach, start, next, Later, here, later, Step-Change,
}

-- Every row is sound, and identifiers and keys are unique.
pub record IsConsistent (rows : Table) : Type 0 where
  pub sound : All IsSound rows
  pub ids : (i : ℕ) → count (has_id i) rows ≤ 1
  pub keys :
      (workspace product : ℕ) (use_case key : Text)
      → count (has_key workspace product use_case key) rows ≤ 1

written-key :
    (w p : ℕ) (u k : Text) (test : LlmExecution → Bool) (f : LlmExecution → LlmExecution)
    → IsWrite test f
    → (e : LlmExecution) → has_key w p u k (f e) ≡ has_key w p u k e
written-key w p u k test f write e =
    let r = write.request e in rw (r.workspace_id, r.product_id, r.use_case, r.idempotency_key) refl

added-key :
    (w p : ℕ) (u k : Text) (row : LlmExecution) (rows : Table)
    → any (execution_clashes row) rows ≡ false
    → has_key w p u k row ≡ true
    → count (has_key w p u k) rows ≡ 0
added-key w p u k row rows free hit =
    let workspace : row.workspace_id ≡ w = ground arith in
    let product : row.product_id ≡ p = ground arith in
    let use_case : row.use_case ≡ u = same_text-eq row.use_case u (ground arith) in
    let key : row.idempotency_key ≡ k = same_text-eq row.idempotency_key k (ground arith) in
    rw (sym workspace, sym product, sym use_case, sym key)
      (count-of_any_none (has_key row.workspace_id row.product_id row.use_case row.idempotency_key)
        (execution_clashes row) (λ e h. ground arith) rows free)

Change-IsConsistent :
    {rows after : Table} → Change rows after → IsConsistent rows → IsConsistent after
Change-IsConsistent same v = v
Change-IsConsistent {rows} (added row sound free) v = record {
  sound = All-append IsSound rows (row ∷ []) v.sound (sound, tt);
  ids = λ i.
      count-append_one (has_id i) rows row
        (λ hit.
          let own : row.id ≡ i = ground arith in
          subst (λ j. count (has_id j) rows ≡ 0) own
            (count-of_any_none (has_id row.id) (execution_clashes row) (λ e h. ground arith) rows
              free))
        (v.ids i);
  keys = λ w p u k.
      count-append_one (has_key w p u k) rows row (added-key w p u k row rows free)
        (v.keys w p u k);
}
Change-IsConsistent {rows} (written test f write) v = record {
  sound =
      All-update IsSound test f rows (All-mono _ _ (λ e s hit. write.sound e s hit) rows v.sound)
        (All-mono _ _ (λ e s miss. s) rows v.sound);
  ids = λ i.
      let unique = v.ids i in
      let count_same = count-update (has_id i) test f (λ e. rw ((write.request e).id) refl) rows in
      omega arith;
  keys = λ w p u k.
      let unique = v.keys w p u k in
      let count_same =
        count-update (has_key w p u k) test f (written-key w p u k test f write) rows in
      omega arith;
}

-- In every table that any order of the transactions of any workers reaches from the empty one, a row
-- has its three lease columns exactly while it runs, a completed row has its output, and identifiers
-- and idempotency keys are unique.
pub Reach-IsConsistent : {rows : Table} → Reach rows → IsConsistent rows
Reach-IsConsistent start = record {
  sound = tt;
  ids = λ i. omega arith;
  keys = λ w p u k. omega arith;
}
Reach-IsConsistent (next reached step) =
    Change-IsConsistent (Step-Change step) (Reach-IsConsistent reached)

Change-completed :
    (i : ℕ) (e : LlmExecution) {rows after : Table}
    → Change rows after
    → IsSound e
    → is_completed e.status ≡ true
    → find (has_id i) rows ≡ some e
    → find (has_id i) after ≡ some e
Change-completed i e same sound done found = found
Change-completed i e {rows} (added row _ free) sound done found =
    find-append_some (has_id i) rows (row ∷ []) found
Change-completed i e {rows} (written test f write) sound done found =
    find-update-some (has_id i) test f (λ x. rw ((write.request x).id) refl) rows e found
    ∙ elim (Bool-cases (test e)) [
      | inl hit ↦ let not_done = write.open_only e sound hit in absurd (ground arith)
      | inr miss ↦ rw miss refl
    ]

completed-Later :
    (avoid : ℕ → Bool) (i : ℕ) (e : LlmExecution) {rows after : Table}
    → Later avoid rows after
    → IsSound e
    → is_completed e.status ≡ true
    → find (has_id i) rows ≡ some e
    → find (has_id i) after ≡ some e
completed-Later avoid i e here sound done found = found
completed-Later avoid i e (later before step) sound done found =
    Change-completed i e (Step-Change step) sound done
      (completed-Later avoid i e before sound done found)

-- A completed execution is final: in every table after a reachable one that has it, its row is the
-- same in every column.
pub completed-final :
    (avoid : ℕ → Bool) (i : ℕ) (e : LlmExecution) (rows after : Table)
    → Reach rows
    → find (has_id i) rows ≡ some e
    → is_completed e.status ≡ true
    → Later avoid rows after
    → find (has_id i) after ≡ some e
completed-final avoid i e rows after reached found done after_it =
    completed-Later avoid i e after_it
      (All-find IsSound (has_id i) rows (Reach-IsConsistent reached).sound found) done found
