-- ===== src/Llm/Steps.antt =====
-- The transactions on the table of executions in any order.
use shiptawk_be.Prelude.{
  ℕ, ◌≡◌, refl, subst, Bool, false, none, some, [], ◌∷◌, ◌++◌, arith, find, any, update, Bool-cases,
  Option-cases, inl, inr,
}
use shiptawk_be.Text.{Text}
use shiptawk_be.Llm.{
  LlmExecution, pending, Table, RowKey, Category, execution_clashes, flush_execution, can_acquire,
  give_lease, acquire_lease, can_reopen, reopen_row, reopen_transient_failure, is_fenced,
  count_attempt, allocate_attempt, can_renew, extend_lease, renew_lease, complete_row, fail_row,
  fence_update,
}
use shiptawk_be.Llm.Rows.{
  IsSound, IsWrite, acquire-IsWrite, reopen-IsWrite, allocate-IsWrite, renew-IsWrite,
  complete-IsWrite, fail-IsWrite,
}

-- The row that `_create_or_replay` adds.
abbrev pub new_execution : ℕ → ℕ → ℕ → Text → Text → ℕ → Text → LlmExecution
new_execution new_id workspace product use_case key fingerprint route = record {
  id = new_id;
  workspace_id = workspace;
  product_id = product;
  use_case = use_case;
  idempotency_key = key;
  request_fingerprint = fingerprint;
  route_name = route;
  status = pending;
  attempt_count = 0;
  lease_owner = none;
  lease_token = none;
  lease_expires_at = none;
  result_fingerprint = none;
  validated_output_snapshot = none;
  failure_category = none;
}

-- One committed transaction of any worker; the leases that it takes have other tokens than those
-- that are avoided.
pub data Step (avoid : ℕ → Bool) (rows : Table) : Table → Type 0 where
  create :
      (new_id workspace product : ℕ) (use_case key : Text) (fingerprint : ℕ) (route : Text)
      {after : Table}
      → flush_execution (new_execution new_id workspace product use_case key fingerprint route) rows
        ≡ some after
      → Step avoid rows after
  acquire :
      (k : RowKey) (owner : Text) (token now expires : ℕ)
      → avoid token ≡ false
      → Step avoid rows ((acquire_lease k owner token now expires rows).1)
  reopen : (k : RowKey) → Step avoid rows ((reopen_transient_failure k rows).1)
  allocate : (k : RowKey) (token now : ℕ) → Step avoid rows ((allocate_attempt k token now rows).1)
  renew :
      (k : RowKey) (token now expires : ℕ)
      → Step avoid rows ((renew_lease k token now expires rows).1)
  complete :
      (k : RowKey) (token now fingerprint : ℕ) (output : Text)
      → Step avoid rows ((fence_update k token now (complete_row fingerprint output) rows).1)
  fail :
      (k : RowKey) (token now : ℕ) (category : Category)
      → Step avoid rows ((fence_update k token now (fail_row category) rows).1)

abbrev pub any_token : ℕ → Bool
any_token token = false

pub data Reach : Table → Type 0 where
  start : Reach []
  next : {rows after : Table} → Reach rows → Step any_token rows after → Reach after

-- What comes after a table, without a lease of an avoided token.
pub data Later (avoid : ℕ → Bool) (rows : Table) : Table → Type 0 where
  here : Later avoid rows rows
  later : {mid after : Table} → Later avoid rows mid → Step avoid mid after → Later avoid rows after

-- The shapes of a step.
pub data Change (rows : Table) : Table → Type 0 where
  same : Change rows rows
  added :
      (row : LlmExecution)
      → IsSound row
      → any (execution_clashes row) rows ≡ false
      → Change rows (rows ++ row ∷ [])
  written :
      (test : LlmExecution → Bool) (f : LlmExecution → LlmExecution)
      → IsWrite test f
      → Change rows (update test f rows)

flush-Change :
    (row : LlmExecution) (rows after : Table)
    → IsSound row
    → flush_execution row rows ≡ some after
    → Change rows after
unfolding flush_execution
flush-Change row rows after sound h = elim (Bool-cases (any (execution_clashes row) rows)) [
  | inl clash ↦ absurd (ground arith)
  | inr free ↦ subst (Change rows) (ground arith) (Change.added row sound free)
]

allocate-Change :
    (k : RowKey) (token now : ℕ) (rows : Table)
    → Change rows ((allocate_attempt k token now rows).1)
unfolding allocate_attempt
allocate-Change k token now rows = elim (Option-cases (find (is_fenced k token now) rows)) [
  | inl gone ↦ subst (Change rows) (ground arith) Change.same
  | inr (e, found) ↦
      subst (Change rows) (ground arith)
        (Change.written (is_fenced k token now) count_attempt (allocate-IsWrite k token now))
]

pub Step-Change :
    {avoid : ℕ → Bool} {rows after : Table} → Step avoid rows after → Change rows after
unfolding acquire_lease reopen_transient_failure renew_lease fence_update
Step-Change {avoid} {rows} {after}
      (create new_id workspace product use_case key fingerprint route h) =
    flush-Change (new_execution new_id workspace product use_case key fingerprint route) rows after
      (record { owner = refl; token = refl; expires = refl; output = λ h. absurd (ground arith) }) h
Step-Change (acquire k owner token now expires fresh) =
    Change.written (can_acquire k now) (give_lease owner token expires)
      (acquire-IsWrite k owner token now expires)
Step-Change (reopen k) = Change.written (can_reopen k) reopen_row (reopen-IsWrite k)
Step-Change {avoid} {rows} (allocate k token now) = allocate-Change k token now rows
Step-Change (renew k token now expires) =
    Change.written (can_renew k token now) (extend_lease expires)
      (renew-IsWrite k token now expires)
Step-Change (complete k token now fingerprint output) =
    Change.written (is_fenced k token now) (complete_row fingerprint output)
      (complete-IsWrite k token now fingerprint output)
Step-Change (fail k token now category) =
    Change.written (is_fenced k token now) (fail_row category) (fail-IsWrite k token now category)
