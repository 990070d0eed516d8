-- ===== src/Llm/Fencing.antt =====
-- What a lease that another worker has taken over can still do.
use shiptawk_be.Prelude.{
  ℕ, ◌≡◌, refl, ◌∙◌, sym, ap, subst, Bool, true, false, none, some, [], ◌∷◌, ◌++◌, arith, find, any,
  count, update, Bool-cases, Option-cases, inl, inr, All, All-append, All-update, All-mono,
  All-of_found, update-miss, any-of_count_pos, find-of_any, is_id, ◌==◌,
}
use shiptawk_be.Text.{Text}
use shiptawk_be.Llm.{
  LlmExecution, Table, RowKey, execution_clashes, flush_execution, can_acquire, give_lease,
  acquire_lease, can_reopen, reopen_row, reopen_transient_failure, is_fenced, count_attempt,
  allocate_attempt, can_renew, extend_lease, renew_lease, complete_row, fail_row, fence_update,
}
use shiptawk_be.Llm.Rows.{has_id}
use shiptawk_be.Llm.Steps.{
  new_execution, Step, create, acquire, reopen, allocate, renew, complete, fail, Reach, Later, here,
  later,
}
use shiptawk_be.Llm.Frozen.{IsConsistent, Reach-IsConsistent}

-- No row with this identifier has a lease with this token.
abbrev IsLost : ℕ → ℕ → Table → Type 0
IsLost i token rows = All (λ e. has_id i e ≡ true → is_id e.lease_token token ≡ false) rows

written-IsLost :
    (i token : ℕ) (test : LlmExecution → Bool) (f : LlmExecution → LlmExecution) (rows : Table)
    → ((e : LlmExecution) → (f e).id ≡ e.id)
    → ((e : LlmExecution)
        → is_id e.lease_token token ≡ false
        → is_id (f e).lease_token token ≡ false)
    → IsLost i token rows
    → IsLost i token (update test f rows)
written-IsLost i token test f rows same_id_of kept lost =
    All-update _ test f rows
      (All-mono _ _ (λ e h hit own. kept e (h (ap (λ j. j == i) (sym (same_id_of e)) ∙ own))) rows
        lost)
      (All-mono _ _ (λ e h miss. h) rows lost)

created-IsLost :
    (i token : ℕ) (row : LlmExecution) (rows after : Table)
    → is_id row.lease_token token ≡ false
    → flush_execution row rows ≡ some after
    → IsLost i token rows
    → IsLost i token after
unfolding flush_execution
created-IsLost i token row rows after none_yet h lost =
    elim (Bool-cases (any (execution_clashes row) rows)) [
      | inl clash ↦ absurd (ground arith)
      | inr free ↦
          let grown : rows ++ row ∷ [] ≡ after = ground arith in
          subst (IsLost i token) grown (All-append _ rows (row ∷ []) lost ((λ own. none_yet), tt))
    ]

allocated-IsLost :
    (i token other now : ℕ) (k : RowKey) (rows : Table)
    → IsLost i token rows
    → IsLost i token ((allocate_attempt k other now rows).1)
unfolding allocate_attempt
allocated-IsLost i token other now k rows lost =
    elim (Option-cases (find (is_fenced k other now) rows)) [
      | inl gone ↦ subst (IsLost i token) (ground arith) lost
      | inr (e, found) ↦ subst (IsLost i token) (ground arith) (
          written-IsLost i token (is_fenced k other now) count_attempt rows (λ e. refl) (λ e h. h)
            lost)
    ]

Step-IsLost :
    (avoid : ℕ → Bool) (i token : ℕ) {rows after : Table}
    → avoid token ≡ true
    → Step avoid rows after
    → IsLost i token rows
    → IsLost i token after
unfolding acquire_lease reopen_transient_failure renew_lease fence_update
Step-IsLost avoid i token {rows} {after} avoided (create n w p u key g route h) lost =
    created-IsLost i token (new_execution n w p u key g route) rows after refl h lost
Step-IsLost avoid i token {rows} avoided (acquire k owner other now expires fresh) lost =
    let apart : (other == token) ≡ false = elim (Bool-cases (other == token)) [
      | inr differ ↦ differ
      | inl equal ↦
          let eq : other ≡ token = ground arith in
          let both = subst (λ t. avoid t ≡ false) eq fresh in absurd (ground arith)
    ] in
    written-IsLost i token (can_acquire k now) (give_lease owner other expires) rows (λ e. refl)
      (λ e h. apart) lost
Step-IsLost avoid i token {rows} avoided (reopen k) lost =
    written-IsLost i token (can_reopen k) reopen_row rows (λ e. refl) (λ e h. h) lost
Step-IsLost avoid i token {rows} avoided (allocate k other now) lost =
    allocated-IsLost i token other now k rows lost
Step-IsLost avoid i token {rows} avoided (renew k other now expires) lost =
    written-IsLost i token (can_renew k other now) (extend_lease expires) rows (λ e. refl)
      (λ e h. h) lost
Step-IsLost avoid i token {rows} avoided (complete k other now g output) lost =
    written-IsLost i token (is_fenced k other now) (complete_row g output) rows (λ e. refl)
      (λ e h. refl) lost
Step-IsLost avoid i token {rows} avoided (fail k other now category) lost =
    written-IsLost i token (is_fenced k other now) (fail_row category) rows (λ e. refl)
      (λ e h. refl) lost

Later-IsLost :
    (avoid : ℕ → Bool) (i token : ℕ) {rows after : Table}
    → avoid token ≡ true
    → Later avoid rows after
    → IsLost i token rows
    → IsLost i token after
Later-IsLost avoid i token avoided here lost = lost
Later-IsLost avoid i token avoided (later before step) lost =
    Step-IsLost avoid i token avoided step (Later-IsLost avoid i token avoided before lost)

acquired-IsLost :
    (k : RowKey) (owner : Text) (token old now expires : ℕ) (rows mid : Table)
    → IsConsistent rows
    → acquire_lease k owner token now expires rows ≡ (true, mid)
    → (token == old) ≡ false
    → IsLost k.id old mid
unfolding acquire_lease
acquired-IsLost k owner token old now expires rows mid v won differ =
    let one : (count (can_acquire k now) rows == 1) ≡ true = ap (λ r. r.0) won in
    let (e, found) =
      find-of_any (can_acquire k now) rows
        (any-of_count_pos (can_acquire k now) rows (ground arith)) in
    let only =
      All-of_found (has_id k.id) (can_acquire k now) rows e (v.ids k.id) (λ x hit. ground arith)
        found in
    subst (IsLost k.id old) (ap (λ r. r.1) won) (
      All-update _ (can_acquire k now) (give_lease owner token expires) rows
        (All-mono _ _ (λ x _ hit own. differ) rows only)
        (All-mono _ _ (λ x must miss own. absurd (let yes = must own in ground arith)) rows only))

lost-unfenced :
    (k : RowKey) (token at : ℕ) (rows : Table)
    → IsLost k.id token rows
    → All (λ e. is_fenced k token at e ≡ false) rows
lost-unfenced k token at rows lost =
    All-mono _ _
      (λ e h. elim (Bool-cases (has_id k.id e)) [
        | inl own ↦ let no = h own in ground arith
        | inr other ↦ ground arith
      ])
      rows lost

-- Once a worker has won the lease of an execution in a reachable table, every other token that nobody
-- draws again is fenced out: in all later tables its holder gets no attempt number, cannot renew, and
-- neither completes nor fails the execution, and the table stays as it is.
pub acquire_lease-fences :
    (avoid : ℕ → Bool) (k : RowKey) (owner : Text) (token old now expires at until : ℕ)
    (values : LlmExecution → LlmExecution) (rows mid after : Table)
    → Reach rows
    → acquire_lease k owner token now expires rows ≡ (true, mid)
    → (token == old) ≡ false
    → avoid old ≡ true
    → Later avoid mid after
    → (allocate_attempt k old at after ≡ (none, after))
      × (renew_lease k old at until after ≡ (false, after))
      × (fence_update k old at values after ≡ (false, after))
unfolding allocate_attempt renew_lease fence_update
acquire_lease-fences avoid k owner token old now expires at until values rows mid after reached won
      differ avoided after_it =
    let lost = Later-IsLost avoid k.id old avoided after_it (
      acquired-IsLost k owner token old now expires rows mid (Reach-IsConsistent reached) won
        differ) in
    let unfenced = lost-unfenced k old at after lost in
    let (found, counted, written) = update-miss (is_fenced k old at) values after unfenced in
    let (_, renewed, same) =
      update-miss (can_renew k old at) (extend_lease until) after
        (All-mono _ _ (λ e h. ground arith) after unfenced) in
    (ground arith, rw (renewed, same) refl, rw (counted, written) refl)
