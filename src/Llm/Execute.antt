-- ===== src/Llm/Execute.antt =====
-- app/modules/llm/services/llm_execution_service.py: an execution from the request to its result.
mod Attempt
unfoldable pub use Attempt.*
use shiptawk_be.Prelude.{
  ℕ, true, false, not, ◌+◌, ◌&&◌, Option, none, some, List, [], ◌∷◌, length, leb, ◌==◌, Result, ok,
  err, if◌then◌else◌,
}
use shiptawk_be.Text.{Text}
use shiptawk_be.Llm.{
  LlmExecution, completed, failed, invalid_response_error, output_validation_error, Table, RowKey,
  key_of, get_by_key, flush_execution, acquire_lease, reopen_transient_failure, allocate_attempt,
  complete_row, fence_update,
}
use shiptawk_be.Llm.Steps.{new_execution}
use shiptawk_be.Llm.Route.{LlmModelRegistration, LlmRoutePlan, Dict, resolve, estimate_cost}

-- `_create_or_replay`.
unfoldable pub create_or_replay : Request → ℕ → ℕ → Table → Result LlmError LlmExecution × Table
unfolding flush_execution get_by_key
create_or_replay req fingerprint new_id rows =
    let row =
      new_execution new_id req.workspace_id req.product_id req.use_case req.idempotency_key
        fingerprint req.route_name in
    elim (flush_execution row rows) [
      | some added ↦ (ok row, added)
      | none ↦
          elim (get_by_key req.workspace_id req.product_id req.use_case req.idempotency_key rows) [
            | none ↦ (err LlmError.integrity_error, rows)
            | some existing ↦
                if existing.request_fingerprint == fingerprint
                then (ok existing, rows)
                else (err LlmError.idempotency_conflict, rows)
          ]
    ]

-- The provider's answers, the caller's validator, and JSON with its hash are parameters: `validate`
-- and `encode` answer `none` for a `TypeError` or a `ValueError`.
module _ (call : LlmModelRegistration → ℕ → Db → Reply) (validate encode : Text → Option Text)
    (result_fingerprint : Text → ℕ) where
  -- The output that the caller's validator accepts and that is not too long.
  unfoldable pub validated : Text → Option Text
  validated output = elim (validate output) [
    | none ↦ none
    | some v ↦ elim (encode v) [
      | none ↦ none
      | some bytes ↦ if leb (length bytes) max_validated_output_bytes then some v else none
    ]
  ]

  -- The end of an attempt whose output is valid.
  unfoldable pub complete :
      RowKey
      → ℕ
      → ℕ
      → ℕ
      → LlmModelRegistration
      → Generated
      → Text
      → Db
      → Result LlmError PersistedLlmExecutionResult × Db
  unfolding record_attempt estimate_cost
  complete k token now number r g output db =
      let cost =
        estimate_cost r (or_zero g.input_tokens) (or_zero g.output_tokens) g.cache_read_tokens
          g.cache_write_tokens in
      let attempt =
        attempt_of k token number r AttemptStatus.attempt_completed g.refusal (some cost) none in
      elim (record_attempt attempt db) [
        | none ↦ (err LlmError.integrity_error, db)
        | some recorded ↦
            let written =
              fence_update k token now (complete_row (result_fingerprint output) output)
                recorded.executions in
            elim (written.0) [
              | true ↦ (
                ok (record { execution_id = k.id; validated_output = output; replayed = false }),
                record recorded { executions = written.1 },
              )
              | false ↦ (err LlmError.lease_lost, recorded)
            ]
      ]

  -- What follows on an answer that is no exception.
  unfoldable pub take_answer :
      RowKey
      → ℕ
      → ℕ
      → LlmModelRegistration
      → Reply
      → Generated
      → Result LlmError PersistedLlmExecutionResult × Db
  unfolding validated complete abandon
  take_answer k token number r reply g =
      let refused =
        attempt_of k token number r AttemptStatus.attempt_failed g.refusal g.estimated_cost
          (some invalid_response_error) in
      let unfit =
        attempt_of k token number r AttemptStatus.attempt_failed false none
          (some output_validation_error) in
      if reply.lost then (err LlmError.lease_lost, reply.db) else elim g.output [
        | none ↦ abandon k token reply.time refused invalid_response_error reply.db
        | some output ↦
            if g.refusal
            then abandon k token reply.time refused invalid_response_error reply.db
            else elim (validated output) [
              | none ↦ abandon k token reply.time unfit output_validation_error reply.db
              | some v ↦ complete k token reply.time number r g v reply.db
            ]
      ]

  -- The loop over the registrations of the route; all is the whole route.
  unfoldable pub attempts :
      RowKey
      → ℕ
      → List LlmModelRegistration
      → ℕ
      → List LlmModelRegistration
      → Db
      → Result LlmError PersistedLlmExecutionResult × Db
  unfolding take_answer record_attempt
  attempts k token route now [] db = (err LlmError.no_attempt, db)
  attempts k token route now (r ∷ rs) db =
      let allocated = allocate_attempt k token now db.executions in
      elim (allocated.0) [
        | none ↦ (err LlmError.lease_lost, db)
        | some number ↦
            let reply = call r number (record db { executions = allocated.1 }) in
            elim (reply.answer) [
              | generated g ↦ take_answer k token number r reply g
              | raised category ↦
                  let attempt =
                    attempt_of k token number r AttemptStatus.attempt_failed false none
                      (some category) in
                  elim (record_attempt attempt reply.db) [
                    | none ↦ (err LlmError.integrity_error, reply.db)
                    | some recorded ↦ elim (is_transient_error category && not (is_last r route)) [
                      | true ↦ attempts k token route reply.time rs recorded
                      | false ↦ finish_failed k token reply.time category recorded
                    ]
                  ]
            ]
      ]

  -- The lease, and the attempts under it.
  unfoldable pub run_route :
      RowKey
      → Text
      → ℕ
      → ℕ
      → ℕ
      → List LlmModelRegistration
      → Db
      → Result LlmError PersistedLlmExecutionResult × Db
  unfolding attempts
  run_route k owner token now lease_duration route db =
      let acquired = acquire_lease k owner token now (now + lease_duration) db.executions in
      elim (acquired.0) [
        | false ↦ (err LlmError.in_progress, record db { executions = acquired.1 })
        | true ↦ attempts k token route now route (record db { executions = acquired.1 })
      ]

  -- What follows on the row of the execution, as it was read.
  unfoldable pub proceed :
      Request
      → LlmExecution
      → ℕ
      → ℕ
      → ℕ
      → List LlmModelRegistration
      → Db
      → Result LlmError PersistedLlmExecutionResult × Db
  unfolding run_route
  proceed req e token now lease_duration route db = elim e.status [
    | completed ↦ elim e.validated_output_snapshot [
      | none ↦ (err LlmError.snapshot_missing, db)
      | some output ↦
          (ok (record { execution_id = e.id; validated_output = output; replayed = true }), db)
    ]
    | failed ↦
        let reopened = reopen_transient_failure (key_of e) db.executions in
        elim (reopened.0) [
          | false ↦ (err LlmError.failed_non_retryable, db)
          | true ↦
              run_route (key_of e) req.lease_owner token now lease_duration route
                (record db { executions = reopened.1 })
        ]
    | _ ↦ run_route (key_of e) req.lease_owner token now lease_duration route db
  ]

  module _ (registrations : Dict LlmModelRegistration) (plans : Dict LlmRoutePlan)
      (required : List Text) (fingerprint : Text → Text → ℕ) (lease_duration : ℕ) where
    -- `execute`, with the identifier of a new row, the token and the time that it draws.
    unfoldable pub execute :
        Request → ℕ → ℕ → ℕ → Db → Result LlmError PersistedLlmExecutionResult × Db
    unfolding resolve create_or_replay proceed
    execute req new_id token now db = elim (resolve registrations plans req.route_name required) [
      | err e ↦ (err (LlmError.route_error e), db)
      | ok route ↦
          let row =
            create_or_replay req (fingerprint req.envelope req.route_name) new_id db.executions in
          let created = record db { executions = row.1 } in
          elim (row.0) [
            | err e ↦ (err e, created)
            | ok e ↦ proceed req e token now lease_duration route.registrations created
          ]
    ]
