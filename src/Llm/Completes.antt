-- ===== src/Llm/Completes.antt =====
-- What a result of the service leaves in the table.
use shiptawk_be.Prelude.{
  ℕ, ◌+◌, ◌≡◌, refl, ◌∙◌, sym, subst, true, false, not, ◌&&◌, Option, none, some, List, [], ◌∷◌,
  arith, find, ok, Option-cases, Bool-cases, inl, inr, find-holds, find-of_any, find-of_unique,
  find-update-some, any-of_count_pos,
}
use shiptawk_be.Text.{Text}
use shiptawk_be.Llm.{
  LlmExecution, Category, Table, RowKey, is_fenced, acquire_lease, allocate_attempt, complete_row,
  fail_row, fence_update, invalid_response_error, output_validation_error,
}
use shiptawk_be.Llm.Rows.{is_completed, has_id}
use shiptawk_be.Llm.Steps.{Step, Reach, next, Later, here, later, any_token}
use shiptawk_be.Llm.Frozen.{IsConsistent, Reach-IsConsistent}
use shiptawk_be.Llm.Route.{LlmModelRegistration, estimate_cost}
use shiptawk_be.Llm.Execute.{
  LlmExecutionAttempt, Db, Generated, Answer-cases, Reply, PersistedLlmExecutionResult,
  is_transient_error, is_last, record_attempt, finish_failed, AttemptStatus, attempt_of, or_zero,
  abandon, validated, complete, take_answer, attempts, run_route,
}
use shiptawk_be.Llm.Parts.{record_attempt-executions}

pub Reach-Later : {a b : Table} → Reach a → Later any_token a b → Reach b
Reach-Later reached here = reached
Reach-Later reached (later before step) = next (Reach-Later reached before) step

-- The row with the identifier is completed with the output.
pub record IsDone (i : ℕ) (output : Text) (rows : Table) : Type 0 where
  pub row : LlmExecution
  pub found : find (has_id i) rows ≡ some row
  pub done : is_completed row.status ≡ true
  pub output_is : row.validated_output_snapshot ≡ some output

fenced-IsDone :
    (k : RowKey) (token now print : ℕ) (output : Text) (rows : Table)
    → IsConsistent rows
    → (fence_update k token now (complete_row print output) rows).0 ≡ true
    → IsDone k.id output ((fence_update k token now (complete_row print output) rows).1)
unfolding fence_update
fenced-IsDone k token now print output rows v won =
    let test = is_fenced k token now in
    let (e, fenced) = find-of_any test rows (any-of_count_pos test rows (ground arith)) in
    let hit : test e ≡ true = find-holds test rows fenced in
    let there = find-of_unique (has_id k.id) test rows e (v.ids k.id) fenced (ground arith) in
    record {
      row = complete_row print output e;
      found =
          find-update-some (has_id k.id) test (complete_row print output) (λ x. refl) rows e there
          ∙ rw hit refl;
      done = refl;
      output_is = refl;
    }

no_result :
    (k : RowKey) (token now : ℕ) (category : Category) (db after : Db)
    (p : PersistedLlmExecutionResult)
    → finish_failed k token now category db ≡ (ok p, after)
    → ⊥
unfolding finish_failed
no_result k token now category db after p h =
    elim (Bool-cases ((fence_update k token now (fail_row category) db.executions).0)) [
      | inl done ↦ absurd (ground arith)
      | inr lost ↦ absurd (ground arith)
    ]

no_result-abandon :
    (k : RowKey) (token now : ℕ) (a : LlmExecutionAttempt) (category : Category) (db after : Db)
    (p : PersistedLlmExecutionResult)
    → abandon k token now a category db ≡ (ok p, after)
    → ⊥
unfolding abandon
no_result-abandon k token now a category db after p h = elim (Option-cases (record_attempt a db)) [
  | inl clash ↦ absurd (ground arith)
  | inr (recorded, done) ↦ no_result k token now category recorded after p (ground arith)
]

module _ (call : LlmModelRegistration → ℕ → Db → Reply) (validate encode : Text → Option Text)
    (result_fingerprint : Text → ℕ) where
  -- What a result means.
  abbrev Stored : ℕ → PersistedLlmExecutionResult → Db → Type 0
  Stored i p after = (p.execution_id ≡ i) × IsDone i p.validated_output after.executions

  complete-Stored :
      (k : RowKey) (token now number : ℕ) (r : LlmModelRegistration) (g : Generated) (output : Text)
      (db after : Db) (p : PersistedLlmExecutionResult)
      → Reach db.executions
      → complete call validate encode result_fingerprint k token now number r g output db
        ≡ (ok p, after)
      → Stored k.id p after
  unfolding complete
  complete-Stored k token now number r g output db after p reached h =
      let a =
        attempt_of k token number r AttemptStatus.attempt_completed g.refusal
          (some (
            estimate_cost r (or_zero g.input_tokens) (or_zero g.output_tokens) g.cache_read_tokens
              g.cache_write_tokens))
          none in
      let values = complete_row (result_fingerprint output) output in
      elim (Option-cases (record_attempt a db)) [
        | inl clash ↦ absurd (ground arith)
        | inr (recorded, done) ↦
            elim (Bool-cases ((fence_update k token now values recorded.executions).0)) [
              | inr lost ↦ absurd (ground arith)
              | inl won ↦
                  let valid =
                    Reach-IsConsistent
                      (subst Reach (sym (record_attempt-executions a db recorded done)) reached) in
                  let stored =
                    fenced-IsDone k token now (result_fingerprint output) output recorded.executions
                      valid won in
                  let table : (fence_update k token now values recorded.executions).1
                      ≡ after.executions =
                    ground arith in
                  let text : output ≡ p.validated_output = ground arith in
                  (
                    ground arith,
                    subst (λ t. IsDone k.id t after.executions) text
                        (subst (IsDone k.id output) table stored),
                  )
            ]
      ]

  take_answer-Stored :
      (k : RowKey) (token number : ℕ) (r : LlmModelRegistration) (reply : Reply) (g : Generated)
      (after : Db) (p : PersistedLlmExecutionResult)
      → Reach reply.db.executions
      → take_answer call validate encode result_fingerprint k token number r reply g ≡ (ok p, after)
      → Stored k.id p after
  unfolding take_answer
  take_answer-Stored k token number r reply g after p reached h =
      let refused =
        attempt_of k token number r AttemptStatus.attempt_failed g.refusal g.estimated_cost
          (some invalid_response_error) in
      let unfit =
        attempt_of k token number r AttemptStatus.attempt_failed false none
          (some output_validation_error) in
      elim (Bool-cases reply.lost) [
        | inl lost ↦ absurd (ground arith)
        | inr held ↦ elim (Option-cases g.output) [
          | inl empty ↦ absurd (
              no_result-abandon k token reply.time refused invalid_response_error reply.db after p
                (ground arith))
          | inr (output, given) ↦ elim (Bool-cases g.refusal) [
            | inl refusal ↦ absurd (
                no_result-abandon k token reply.time refused invalid_response_error reply.db after p
                  (ground arith))
            | inr willing ↦
                elim (Option-cases (validated call validate encode result_fingerprint output)) [
                  | inl bad ↦ absurd (
                      no_result-abandon k token reply.time unfit output_validation_error reply.db
                        after p (ground arith))
                  | inr (v, good) ↦
                      complete-Stored k token reply.time number r g v reply.db after p reached
                        (ground arith)
                ]
          ]
        ]
      ]

  attempts-Stored :
      ((r : LlmModelRegistration) (n : ℕ) (d : Db)
        → Later any_token d.executions (call r n d).db.executions)
      → (k : RowKey) (token : ℕ) (route : List LlmModelRegistration) (now : ℕ)
        (rs : List LlmModelRegistration) (db after : Db) (p : PersistedLlmExecutionResult)
      → Reach db.executions
      → attempts call validate encode result_fingerprint k token route now rs db ≡ (ok p, after)
      → Stored k.id p after
  unfolding attempts
  attempts-Stored protocol k token route now [] db after p reached h = absurd (ground arith)
  attempts-Stored protocol k token route now (r ∷ rs) db after p reached h =
      elim (Option-cases ((allocate_attempt k token now db.executions).0)) [
        | inl lost ↦ absurd (ground arith)
        | inr (number, given) ↦
            let begun : Db = record db {
              executions = (allocate_attempt k token now db.executions).1;
            } in
            let step : Step any_token db.executions
                ((allocate_attempt k token now db.executions).1) =
              Step.allocate k token now in
            let reply = call r number begun in
            let replied : Reach reply.db.executions =
              Reach-Later (next reached step) (protocol r number begun) in
            elim (Answer-cases reply.answer) [
              | inr (g, is) ↦
                  take_answer-Stored k token number r reply g after p replied (ground arith)
              | inl (category, is) ↦
                  let a =
                    attempt_of k token number r AttemptStatus.attempt_failed false none
                      (some category) in
                  elim (Option-cases (record_attempt a reply.db)) [
                    | inl clash ↦ absurd (ground arith)
                    | inr (recorded, done) ↦
                        elim (Bool-cases (is_transient_error category && not (is_last r route))) [
                          | inl again ↦
                              attempts-Stored protocol k token route reply.time rs recorded after p
                                (subst Reach
                                  (sym (record_attempt-executions a reply.db recorded done))
                                  replied)
                                (ground arith)
                          | inr over ↦ absurd (
                              no_result k token reply.time category recorded after p (ground arith))
                        ]
                  ]
            ]
      ]

  pub run_route-Stored :
      ((r : LlmModelRegistration) (n : ℕ) (d : Db)
        → Later any_token d.executions (call r n d).db.executions)
      → (k : RowKey) (owner : Text) (token now duration : ℕ) (route : List LlmModelRegistration)
        (db after : Db) (p : PersistedLlmExecutionResult)
      → Reach db.executions
      → run_route call validate encode result_fingerprint k owner token now duration route db
        ≡ (ok p, after)
      → Stored k.id p after
  unfolding run_route
  run_route-Stored protocol k owner token now duration route db after p reached h =
      let leased = (acquire_lease k owner token now (now + duration) db.executions).1 in
      let step : Step any_token db.executions
          ((acquire_lease k owner token now (now + duration) db.executions).1) =
        Step.acquire k owner token now (now + duration) refl in
      elim (Bool-cases ((acquire_lease k owner token now (now + duration) db.executions).0)) [
        | inr busy ↦ absurd (ground arith)
        | inl won ↦
            attempts-Stored protocol k token route now route (record db { executions = leased })
              after p (next reached step) (ground arith)
      ]
