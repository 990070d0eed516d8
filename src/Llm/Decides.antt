-- ===== src/Llm/Decides.antt =====
-- Whether the loop over the registrations of a route can run out of them.
use shiptawk_be.Prelude.{
  ℕ, ◌+◌, ◌≡◌, ◌≤◌, refl, ◌∙◌, subst, Bool, true, false, not, ◌&&◌, Option, none, some, List, [],
  ◌∷◌, ◌++◌, arith, err, ok, Result, length, Result-cases, Option-cases, Bool-cases, inl, inr, ◌==◌,
}
use shiptawk_be.Text.{Text}
use shiptawk_be.Llm.{
  LlmExecution, Status, pending, running, completed, failed, Category, Table, RowKey, key_of,
  get_by_key, flush_execution, acquire_lease, reopen_transient_failure, allocate_attempt,
  complete_row, fail_row, fence_update, invalid_response_error, output_validation_error,
}
use shiptawk_be.Llm.Steps.{new_execution}
use shiptawk_be.Llm.Route.{
  LlmModelRegistration, LlmRoutePlan, Dict, get_item, is_plan, resolve, resolve-bounds,
  estimate_cost,
}
use shiptawk_be.Llm.Execute.{
  LlmError, LlmExecutionAttempt, Db, Generated, Answer-cases, Reply, Request,
  PersistedLlmExecutionResult, is_transient_error, is_last, record_attempt, finish_failed,
  AttemptStatus, attempt_of, or_zero, abandon, create_or_replay, validated, complete, take_answer,
  attempts, run_route, proceed, execute,
}
use shiptawk_be.Llm.Last.{is_last-append, append_one}

-- The error of a loop that has run out of registrations.
abbrev pub is_no_attempt : Result LlmError PersistedLlmExecutionResult → Bool
is_no_attempt (err LlmError.no_attempt) = true
is_no_attempt _ = false

finish_failed-decides :
    (k : RowKey) (token now : ℕ) (category : Category) (db : Db)
    → is_no_attempt ((finish_failed k token now category db).0) ≡ false
unfolding finish_failed
finish_failed-decides k token now category db =
    elim (Bool-cases ((fence_update k token now (fail_row category) db.executions).0)) [
      | inl done ↦ ground arith
      | inr lost ↦ ground arith
    ]

abandon-decides :
    (k : RowKey) (token now : ℕ) (a : LlmExecutionAttempt) (category : Category) (db : Db)
    → is_no_attempt ((abandon k token now a category db).0) ≡ false
unfolding abandon
abandon-decides k token now a category db = elim (Option-cases (record_attempt a db)) [
  | inl clash ↦ ground arith
  | inr (recorded, done) ↦ ground (arith, finish_failed-decides k token now category recorded)
]

module _ (call : LlmModelRegistration → ℕ → Db → Reply) (validate encode : Text → Option Text)
    (result_fingerprint : Text → ℕ) where
  complete-decides :
      (k : RowKey) (token now number : ℕ) (r : LlmModelRegistration) (g : Generated) (output : Text)
      (db : Db)
      → is_no_attempt
          ((complete call validate encode result_fingerprint k token now number r g output db).0)
        ≡ false
  unfolding complete
  complete-decides k token now number r g output db =
      let a =
        attempt_of k token number r AttemptStatus.attempt_completed g.refusal
          (some (
            estimate_cost r (or_zero g.input_tokens) (or_zero g.output_tokens) g.cache_read_tokens
              g.cache_write_tokens))
          none in
      elim (Option-cases (record_attempt a db)) [
        | inl clash ↦ ground arith
        | inr (recorded, done) ↦
            elim (Bool-cases (
              (fence_update k token now (complete_row (result_fingerprint output) output)
                recorded.executions).0)) [ inl won ↦ ground arith | inr lost ↦ ground arith ]
      ]

  take_answer-decides :
      (k : RowKey) (token number : ℕ) (r : LlmModelRegistration) (reply : Reply) (g : Generated)
      → is_no_attempt
          ((take_answer call validate encode result_fingerprint k token number r reply g).0)
        ≡ false
  unfolding take_answer
  take_answer-decides k token number r reply g =
      let refused =
        attempt_of k token number r AttemptStatus.attempt_failed g.refusal g.estimated_cost
          (some invalid_response_error) in
      let unfit =
        attempt_of k token number r AttemptStatus.attempt_failed false none
          (some output_validation_error) in
      let no_output = abandon-decides k token reply.time refused invalid_response_error reply.db in
      elim (Bool-cases reply.lost) [
        | inl lost ↦ ground arith
        | inr held ↦ elim (Option-cases g.output) [
          | inl empty ↦ ground arith
          | inr (output, given) ↦ elim (Bool-cases g.refusal) [
            | inl refusal ↦ ground arith
            | inr willing ↦
                elim (Option-cases (validated call validate encode result_fingerprint output)) [
                  | inl bad ↦ ground (
                    arith,
                    abandon-decides k token reply.time unfit output_validation_error reply.db,
                  )
                  | inr (v, good) ↦
                      ground (arith, complete-decides k token reply.time number r g v reply.db)
                ]
          ]
        ]
      ]

  turn-decides :
      (k : RowKey) (token now : ℕ) (r : LlmModelRegistration) (rs : List LlmModelRegistration)
      (route : List LlmModelRegistration) (db : Db)
      → ((at : ℕ) (d : Db)
          → is_last r route ≡ false
          → is_no_attempt
              ((attempts call validate encode result_fingerprint k token route at rs d).0)
            ≡ false)
      → is_no_attempt
          ((attempts call validate encode result_fingerprint k token route now (r ∷ rs) db).0)
        ≡ false
  unfolding attempts
  turn-decides k token now r rs route db rest =
      elim (Option-cases ((allocate_attempt k token now db.executions).0)) [
        | inl lost ↦ ground arith
        | inr (number, given) ↦
            let reply =
              call r number
                (record db { executions = (allocate_attempt k token now db.executions).1 }) in
            elim (Answer-cases reply.answer) [
              | inr (g, is) ↦ ground (arith, take_answer-decides k token number r reply g)
              | inl (category, is) ↦
                  let a =
                    attempt_of k token number r AttemptStatus.attempt_failed false none
                      (some category) in
                  elim (Option-cases (record_attempt a reply.db)) [
                    | inl clash ↦ ground arith
                    | inr (recorded, done) ↦
                        elim (Bool-cases (is_transient_error category && not (is_last r route))) [
                          | inr over ↦
                              ground
                                (arith, finish_failed-decides k token reply.time category recorded)
                          | inl again ↦
                              let more = rest reply.time recorded (ground arith) in ground arith
                        ]
                  ]
            ]
      ]

  attempts-decides :
      (k : RowKey) (token : ℕ) (before : List LlmModelRegistration) (now : ℕ)
      (r : LlmModelRegistration) (rs : List LlmModelRegistration)
      (route : List LlmModelRegistration) (db : Db)
      → before ++ (r ∷ rs) ≡ route
      → is_no_attempt
          ((attempts call validate encode result_fingerprint k token route now (r ∷ rs) db).0)
        ≡ false
  attempts-decides k token before now r [] route db split =
      turn-decides k token now r [] route db (λ at d not_last. absurd (
        let last : is_last r route ≡ true =
          subst (λ t. is_last r t ≡ true) split (is_last-append r before) in
        ground arith))
  attempts-decides k token before now r (r2 ∷ rs) route db split =
      turn-decides k token now r (r2 ∷ rs) route db (λ at d not_last.
        attempts-decides k token (before ++ r ∷ []) at r2 rs route d
          (append_one before r (r2 ∷ rs) ∙ split))

  run_route-decides :
      (k : RowKey) (owner : Text) (token now duration : ℕ) (route : List LlmModelRegistration)
      (db : Db)
      → 1 ≤ length route
      → is_no_attempt (
          (run_route call validate encode result_fingerprint k owner token now duration route db).0)
        ≡ false
  unfolding run_route
  run_route-decides k owner token now duration [] db some_there = absurd (omega arith)
  run_route-decides k owner token now duration (r ∷ rs) db some_there =
      let acquired = acquire_lease k owner token now (now + duration) db.executions in
      elim (Bool-cases ((acquire_lease k owner token now (now + duration) db.executions).0)) [
        | inr busy ↦ ground arith
        | inl won ↦ ground (
          arith,
          attempts-decides k token [] now r rs (r ∷ rs) (record db { executions = acquired.1 })
              refl,
        )
      ]

  proceed-decides :
      (req : Request) (e : LlmExecution) (token now duration : ℕ)
      (route : List LlmModelRegistration) (db : Db) (s : Status)
      → e.status ≡ s
      → 1 ≤ length route
      → is_no_attempt
          ((proceed call validate encode result_fingerprint req e token now duration route db).0)
        ≡ false
  unfolding proceed
  proceed-decides req e token now duration route db pending is some_there =
      ground
        (arith, run_route-decides (key_of e) req.lease_owner token now duration route db some_there)
  proceed-decides req e token now duration route db running is some_there =
      ground
        (arith, run_route-decides (key_of e) req.lease_owner token now duration route db some_there)
  proceed-decides req e token now duration route db completed is some_there =
      elim (Option-cases e.validated_output_snapshot) [
        | inl missing ↦ ground arith
        | inr (output, kept) ↦ ground arith
      ]
  proceed-decides req e token now duration route db failed is some_there =
      let reopened = reopen_transient_failure (key_of e) db.executions in
      elim (Bool-cases ((reopen_transient_failure (key_of e) db.executions).0)) [
        | inr final ↦ ground arith
        | inl open_again ↦ ground (
          arith,
          run_route-decides (key_of e) req.lease_owner token now duration route
              (record db { executions = reopened.1 }) some_there,
        )
      ]

row-decides :
    (req : Request) (print new_id : ℕ) (rows : Table) (e : LlmError)
    → (create_or_replay req print new_id rows).0 ≡ err e
    → is_no_attempt (err e) ≡ false
unfolding create_or_replay get_by_key
row-decides req print new_id rows e h =
    let row =
      new_execution new_id req.workspace_id req.product_id req.use_case req.idempotency_key print
        req.route_name in
    elim (Option-cases (flush_execution row rows)) [
      | inr (added, done) ↦ absurd (ground arith)
      | inl clash ↦
          elim (Option-cases
            (get_by_key req.workspace_id req.product_id req.use_case req.idempotency_key rows)) [
              | inl gone ↦
                  let own : LlmError.integrity_error ≡ e = ground arith in
                  subst (λ x. is_no_attempt (err x) ≡ false) own refl
              | inr (old, there) ↦ elim (Bool-cases (old.request_fingerprint == print)) [
                | inl equal ↦ absurd (ground arith)
                | inr differ ↦
                    let own : LlmError.idempotency_conflict ≡ e = ground arith in
                    subst (λ x. is_no_attempt (err x) ≡ false) own refl
              ]
            ]
    ]

-- For a route whose plan is valid, `execute` never runs out of registrations without a result or an
-- error of its own: the assertion after its loop cannot fail, whatever the providers answer.
pub execute-decides :
    (call : LlmModelRegistration → ℕ → Db → Reply) (validate encode : Text → Option Text)
    (result_fingerprint : Text → ℕ) (registrations : Dict LlmModelRegistration)
    (plans : Dict LlmRoutePlan) (required : List Text) (fingerprint : Text → Text → ℕ)
    (lease_duration : ℕ) (req : Request) (new_id token now : ℕ) (db : Db) (plan : LlmRoutePlan)
    → get_item req.route_name plans ≡ ok plan
    → is_plan plan ≡ true
    → is_no_attempt (
        (execute call validate encode result_fingerprint registrations plans required fingerprint
          lease_duration req new_id token now db).0)
      ≡ false
unfolding execute
execute-decides call validate encode result_fingerprint registrations plans required fingerprint
      lease_duration req new_id token now db plan there proper =
    let print = fingerprint req.envelope req.route_name in
    elim (Result-cases (resolve registrations plans req.route_name required)) [
      | inr (e, unresolved) ↦ ground arith
      | inl (route, resolved) ↦
          let (_, some_there, _, _) =
            resolve-bounds registrations plans req.route_name required plan route there proper
              resolved in
          let created : Db = record db {
            executions = (create_or_replay req print new_id db.executions).1;
          } in
          elim (Result-cases ((create_or_replay req print new_id db.executions).0)) [
            | inr (e, refused) ↦
                let other = row-decides req print new_id db.executions e refused in ground arith
            | inl (e, row) ↦ ground (
              arith,
              proceed-decides call validate encode result_fingerprint req e token now lease_duration
                  route.registrations created e.status refl some_there,
            )
          ]
    ]
