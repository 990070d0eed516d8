-- ===== src/Llm/Parts.antt =====
-- The parts of `execute` that write, against the steps of the table.
use shiptawk_be.Prelude.{ℕ, ◌≡◌, subst, some, arith, any, Option-cases, Bool-cases, inl, inr, ◌==◌}
use shiptawk_be.Llm.{Category, Table, RowKey, get_by_key, flush_execution, fail_row, fence_update}
use shiptawk_be.Llm.Steps.{Step, Later, here, later, any_token, new_execution}
use shiptawk_be.Llm.Execute.{
  LlmExecutionAttempt, Db, Request, PersistedLlmExecutionResult, same_attempt, record_attempt,
  finish_failed, abandon, create_or_replay,
}

pub Later-trans : {a b c : Table} → Later any_token a b → Later any_token b c → Later any_token a c
Later-trans h here = h
Later-trans h (later before step) = later (Later-trans h before) step

-- A step that is taken first.
pub one : {a b : Table} → Step any_token a b → Later any_token a b
one step = later here step

pub record_attempt-executions :
    (a : LlmExecutionAttempt) (db after : Db)
    → record_attempt a db ≡ some after
    → after.executions ≡ db.executions
unfolding record_attempt
record_attempt-executions a db after h = elim (Bool-cases (any (same_attempt a) db.attempts)) [
  | inl clash ↦ absurd (ground arith)
  | inr free ↦ ground arith
]

pub finish_failed-Later :
    (k : RowKey) (token now : ℕ) (category : Category) (db : Db)
    → Later any_token db.executions
        ((finish_failed {A = PersistedLlmExecutionResult} k token now category db).1.executions)
unfolding finish_failed
finish_failed-Later k token now category db =
    elim (Bool-cases ((fence_update k token now (fail_row category) db.executions).0)) [
      | inl done ↦
          let step : Step any_token db.executions
              ((fence_update k token now (fail_row category) db.executions).1) =
            Step.fail k token now category in
          subst (Later any_token db.executions) (ground arith) (one step)
      | inr lost ↦ subst (Later any_token db.executions) (ground arith) here
    ]

pub abandon-Later :
    (k : RowKey) (token now : ℕ) (a : LlmExecutionAttempt) (category : Category) (db : Db)
    → Later any_token db.executions
        ((abandon {A = PersistedLlmExecutionResult} k token now a category db).1.executions)
unfolding abandon
abandon-Later k token now a category db = elim (Option-cases (record_attempt a db)) [
  | inl clash ↦ subst (Later any_token db.executions) (ground arith) here
  | inr (recorded, done) ↦
      let kept = record_attempt-executions a db recorded done in
      subst
        (λ t.
          Later any_token t
            ((abandon {A = PersistedLlmExecutionResult} k token now a category db).1.executions))
        kept
        (subst (Later any_token recorded.executions) (ground arith)
          (finish_failed-Later k token now category recorded))
]

pub create_or_replay-Later :
    (req : Request) (fingerprint new_id : ℕ) (rows : Table)
    → Later any_token rows ((create_or_replay req fingerprint new_id rows).1)
unfolding create_or_replay get_by_key
create_or_replay-Later req fingerprint new_id rows =
    let row =
      new_execution new_id req.workspace_id req.product_id req.use_case req.idempotency_key
        fingerprint req.route_name in
    elim (Option-cases (flush_execution row rows)) [
      | inr (added, done) ↦
          let step : Step any_token rows added =
            Step.create new_id req.workspace_id req.product_id req.use_case req.idempotency_key
              fingerprint req.route_name done in
          subst (Later any_token rows) (ground arith) (one step)
      | inl clash ↦
          elim (Option-cases
            (get_by_key req.workspace_id req.product_id req.use_case req.idempotency_key rows)) [
              | inl gone ↦ subst (Later any_token rows) (ground arith) here
              | inr (old, found) ↦ elim (Bool-cases (old.request_fingerprint == fingerprint)) [
                | inl equal ↦ subst (Later any_token rows) (ground arith) here
                | inr differ ↦ subst (Later any_token rows) (ground arith) here
              ]
            ]
    ]
