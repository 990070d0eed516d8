-- ===== src/Llm/Loop.antt =====
-- The service against the steps of the table: every transaction it makes is one of them.
use shiptawk_be.Prelude.{
  ℕ, ◌+◌, ◌≡◌, refl, sym, subst, false, not, ◌&&◌, Option, none, some, List, [], ◌∷◌, arith,
  Result-cases, Option-cases, Bool-cases, inl, inr,
}
use shiptawk_be.Text.{Text}
use shiptawk_be.Llm.{
  LlmExecution, Status, pending, running, completed, failed, Table, RowKey, key_of, acquire_lease,
  reopen_transient_failure, allocate_attempt, complete_row, fence_update, invalid_response_error,
  output_validation_error,
}
use shiptawk_be.Llm.Steps.{Step, Later, here, any_token}
use shiptawk_be.Llm.Route.{LlmModelRegistration, LlmRoutePlan, Dict, resolve, estimate_cost}
use shiptawk_be.Llm.Execute.{
  Db, Generated, Answer-cases, Reply, Request, is_transient_error, is_last, record_attempt,
  AttemptStatus, attempt_of, or_zero, create_or_replay, validated, complete, take_answer, attempts,
  run_route, proceed, execute,
}
use shiptawk_be.Llm.Parts.{
  Later-trans, one, record_attempt-executions, finish_failed-Later, abandon-Later,
  create_or_replay-Later,
}

module _ (call : LlmModelRegistration → ℕ → Db → Reply) (validate encode : Text → Option Text)
    (result_fingerprint : Text → ℕ) where
  complete-Later :
      (k : RowKey) (token now number : ℕ) (r : LlmModelRegistration) (g : Generated) (output : Text)
      (db : Db)
      → Later any_token db.executions (
          (complete call validate encode result_fingerprint k token now number r g output
            db).1.executions)
  unfolding complete
  complete-Later k token now number r g output db =
      let a =
        attempt_of k token number r AttemptStatus.attempt_completed g.refusal
          (some (
            estimate_cost r (or_zero g.input_tokens) (or_zero g.output_tokens) g.cache_read_tokens
              g.cache_write_tokens))
          none in
      let values = complete_row (result_fingerprint output) output in
      elim (Option-cases (record_attempt a db)) [
        | inl clash ↦ subst (Later any_token db.executions) (ground arith) here
        | inr (recorded, done) ↦
            let kept = record_attempt-executions a db recorded done in
            elim (Bool-cases ((fence_update k token now values recorded.executions).0)) [
              | inr lost ↦
                  subst (Later any_token db.executions) (ground arith)
                    (subst (Later any_token db.executions) (sym kept) here)
              | inl won ↦
                  let step : Step any_token recorded.executions
                      ((fence_update k token now values recorded.executions).1) =
                    Step.complete k token now (result_fingerprint output) output in
                  subst (Later any_token db.executions) (ground arith) (
                    subst
                      (λ t.
                        Later any_token t ((fence_update k token now values recorded.executions).1))
                      kept (one step))
            ]
      ]

  take_answer-Later :
      (k : RowKey) (token number : ℕ) (r : LlmModelRegistration) (reply : Reply) (g : Generated)
      → Later any_token reply.db.executions (
          (take_answer call validate encode result_fingerprint k token number r reply
            g).1.executions)
  unfolding take_answer
  take_answer-Later k token number r reply g =
      let L = Later any_token reply.db.executions in
      let refused =
        attempt_of k token number r AttemptStatus.attempt_failed g.refusal g.estimated_cost
          (some invalid_response_error) in
      let unfit =
        attempt_of k token number r AttemptStatus.attempt_failed false none
          (some output_validation_error) in
      elim (Bool-cases reply.lost) [
        | inl lost ↦ subst L (ground arith) here
        | inr held ↦ elim (Option-cases g.output) [
          | inl empty ↦
              subst L (ground arith)
                (abandon-Later k token reply.time refused invalid_response_error reply.db)
          | inr (output, given) ↦ elim (Bool-cases g.refusal) [
            | inl refusal ↦
                subst L (ground arith)
                  (abandon-Later k token reply.time refused invalid_response_error reply.db)
            | inr willing ↦
                elim (Option-cases (validated call validate encode result_fingerprint output)) [
                  | inl bad ↦
                      subst L (ground arith)
                        (abandon-Later k token reply.time unfit output_validation_error reply.db)
                  | inr (v, good) ↦
                      subst L (ground arith)
                        (complete-Later k token reply.time number r g v reply.db)
                ]
          ]
        ]
      ]

  allocated-Later :
      (k : RowKey) (token now : ℕ) (rows : Table)
      → Later any_token rows ((allocate_attempt k token now rows).1)
  allocated-Later k token now rows =
      let step : Step any_token rows ((allocate_attempt k token now rows).1) =
        Step.allocate k token now in
      one step

  attempts-Later :
      ((r : LlmModelRegistration) (n : ℕ) (d : Db)
        → Later any_token d.executions (call r n d).db.executions)
      → (k : RowKey) (token : ℕ) (route : List LlmModelRegistration) (now : ℕ)
        (rs : List LlmModelRegistration) (db : Db)
      → Later any_token db.executions
          ((attempts call validate encode result_fingerprint k token route now rs db).1.executions)
  unfolding attempts
  attempts-Later protocol k token route now [] db = here
  attempts-Later protocol k token route now (r ∷ rs) db =
      let L = Later any_token db.executions in
      elim (Option-cases ((allocate_attempt k token now db.executions).0)) [
        | inl lost ↦ subst L (ground arith) here
        | inr (number, given) ↦
            let begun : Db = record db {
              executions = (allocate_attempt k token now db.executions).1;
            } in
            let reply = call r number begun in
            let to_reply : L reply.db.executions =
              Later-trans (allocated-Later k token now db.executions) (protocol r number begun) in
            elim (Answer-cases reply.answer) [
              | inr (g, is) ↦
                  subst L (ground arith)
                    (Later-trans to_reply (take_answer-Later k token number r reply g))
              | inl (category, is) ↦
                  let a =
                    attempt_of k token number r AttemptStatus.attempt_failed false none
                      (some category) in
                  elim (Option-cases (record_attempt a reply.db)) [
                    | inl clash ↦ subst L (ground arith) to_reply
                    | inr (recorded, done) ↦
                        let to_recorded : L recorded.executions =
                          subst L (sym (record_attempt-executions a reply.db recorded done))
                            to_reply in
                        elim (Bool-cases (is_transient_error category && not (is_last r route))) [
                          | inl again ↦ subst L (ground arith) (
                              Later-trans to_recorded
                                (attempts-Later protocol k token route reply.time rs recorded))
                          | inr over ↦ subst L (ground arith) (
                              Later-trans to_recorded
                                (finish_failed-Later k token reply.time category recorded))
                        ]
                  ]
            ]
      ]

  run_route-Later :
      ((r : LlmModelRegistration) (n : ℕ) (d : Db)
        → Later any_token d.executions (call r n d).db.executions)
      → (k : RowKey) (owner : Text) (token now duration : ℕ) (route : List LlmModelRegistration)
        (db : Db)
      → Later any_token db.executions (
          (run_route call validate encode result_fingerprint k owner token now duration route
            db).1.executions)
  unfolding run_route
  run_route-Later protocol k owner token now duration route db =
      let L = Later any_token db.executions in
      let after = (acquire_lease k owner token now (now + duration) db.executions).1 in
      let step : Step any_token db.executions
          ((acquire_lease k owner token now (now + duration) db.executions).1) =
        Step.acquire k owner token now (now + duration) refl in
      elim (Bool-cases ((acquire_lease k owner token now (now + duration) db.executions).0)) [
        | inr busy ↦ subst L (ground arith) (one step)
        | inl won ↦ subst L (ground arith) (
            Later-trans (one step)
              (attempts-Later protocol k token route now route (record db { executions = after })))
      ]

  pub proceed-Later :
      ((r : LlmModelRegistration) (n : ℕ) (d : Db)
        → Later any_token d.executions (call r n d).db.executions)
      → (req : Request) (e : LlmExecution) (token now duration : ℕ)
        (route : List LlmModelRegistration) (db : Db) (s : Status)
      → e.status ≡ s
      → Later any_token db.executions (
          (proceed call validate encode result_fingerprint req e token now duration route
            db).1.executions)
  unfolding proceed
  proceed-Later protocol req e token now duration route db pending is =
      subst (Later any_token db.executions) (ground arith)
        (run_route-Later protocol (key_of e) req.lease_owner token now duration route db)
  proceed-Later protocol req e token now duration route db running is =
      subst (Later any_token db.executions) (ground arith)
        (run_route-Later protocol (key_of e) req.lease_owner token now duration route db)
  proceed-Later protocol req e token now duration route db completed is =
      elim (Option-cases e.validated_output_snapshot) [
        | inl missing ↦ subst (Later any_token db.executions) (ground arith) here
        | inr (output, kept) ↦ subst (Later any_token db.executions) (ground arith) here
      ]
  proceed-Later protocol req e token now duration route db failed is =
      let after = (reopen_transient_failure (key_of e) db.executions).1 in
      let step : Step any_token db.executions
          ((reopen_transient_failure (key_of e) db.executions).1) =
        Step.reopen (key_of e) in
      elim (Bool-cases ((reopen_transient_failure (key_of e) db.executions).0)) [
        | inr final ↦ subst (Later any_token db.executions) (ground arith) here
        | inl reopened ↦ subst (Later any_token db.executions) (ground arith) (
            Later-trans (one step) (
              run_route-Later protocol (key_of e) req.lease_owner token now duration route
                (record db { executions = after })))
      ]

  module _ (registrations : Dict LlmModelRegistration) (plans : Dict LlmRoutePlan)
      (required : List Text) (fingerprint : Text → Text → ℕ) (lease_duration : ℕ) where
    -- Whatever a call of `execute` does to the table of executions is a sequence of the transactions of
    -- its protocol, on every branch and for every request, if what happens while a provider answers is
    -- one.
    pub execute-Later :
        ((r : LlmModelRegistration) (n : ℕ) (d : Db)
          → Later any_token d.executions (call r n d).db.executions)
        → (req : Request) (new_id token now : ℕ) (db : Db)
        → Later any_token db.executions (
            (execute call validate encode result_fingerprint registrations plans required
              fingerprint lease_duration req new_id token now db).1.executions)
    unfolding execute
    execute-Later protocol req new_id token now db =
        let L = Later any_token db.executions in
        let print = fingerprint req.envelope req.route_name in
        elim (Result-cases (resolve registrations plans req.route_name required)) [
          | inr (e, unresolved) ↦ subst L (ground arith) here
          | inl (route, resolved) ↦
              let made = create_or_replay-Later req print new_id db.executions in
              let created : Db = record db {
                executions = (create_or_replay req print new_id db.executions).1;
              } in
              elim (Result-cases ((create_or_replay req print new_id db.executions).0)) [
                | inr (e, refused) ↦ subst L (ground arith) made
                | inl (e, there) ↦ subst L (ground arith) (
                    Later-trans made (
                      proceed-Later protocol req e token now lease_duration route.registrations
                        created e.status refl))
              ]
        ]
