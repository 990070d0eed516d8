-- ===== src/Llm/Replays.antt =====
-- A result of the service, and the same request again.
use shiptawk_be.Prelude.{
  ℕ, ◌≡◌, refl, ◌∙◌, ap, subst, true, Option, some, List, arith, any, find, ok, Result-cases,
  Option-cases, Bool-cases, inl, inr, find-holds, find-of_unique, any-of_found,
}
use shiptawk_be.Text.{Text}
use shiptawk_be.Llm.{
  LlmExecution, Status, pending, running, completed, failed, Table, key_of, get_by_key, has_key,
  execution_clashes, flush_execution, reopen_transient_failure,
}
use shiptawk_be.Llm.Rows.{is_completed, has_id}
use shiptawk_be.Llm.Steps.{Step, Reach, next, Later, any_token, new_execution}
use shiptawk_be.Llm.Frozen.{Reach-IsConsistent, completed-final}
use shiptawk_be.Llm.Route.{LlmModelRegistration, LlmRoutePlan, ResolvedLlmRoute, Dict, resolve}
use shiptawk_be.Llm.Execute.{
  Db, Reply, Request, PersistedLlmExecutionResult, create_or_replay, proceed, execute,
}
use shiptawk_be.Llm.Parts.{create_or_replay-Later}
use shiptawk_be.Llm.Completes.{IsDone, Reach-Later, run_route-Stored}
use shiptawk_be.Llm.Once.{IsFor, Later-IsFor, create_or_replay-IsFor}
use shiptawk_be.Llm.Loop.{execute-Later, proceed-Later}

completed-status : (s : Status) → is_completed s ≡ true → s ≡ completed
completed-status pending h = absurd (ground arith)
completed-status running h = absurd (ground arith)
completed-status completed h = refl
completed-status failed h = absurd (ground arith)

-- A request whose row is completed is read back, and the table is left.
create_or_replay-done :
    (req : Request) (print new_id i : ℕ) (output : Text) (rows : Table)
    → Reach rows
    → (is_for : IsFor req print i rows)
    → create_or_replay req print new_id rows ≡ (ok is_for.row, rows)
unfolding create_or_replay get_by_key flush_execution
create_or_replay-done req print new_id i output rows reached v =
    let new =
      new_execution new_id req.workspace_id req.product_id req.use_case req.idempotency_key print
        req.route_name in
    let test = has_key req.workspace_id req.product_id req.use_case req.idempotency_key in
    let keyed = v.keyed in
    let clash : any (execution_clashes new) rows ≡ true =
      any-of_found (has_id i) (execution_clashes new) rows v.row v.found (ground arith) in
    let there : find test rows ≡ some v.row =
      find-of_unique test (has_id i) rows v.row
        ((Reach-IsConsistent reached).keys req.workspace_id req.product_id req.use_case
          req.idempotency_key)
        v.found v.keyed in
    let print_is = v.print_is in ground arith

module _ (call : LlmModelRegistration → ℕ → Db → Reply) (validate encode : Text → Option Text)
    (result_fingerprint : Text → ℕ) where
  proceed-Stored :
      ((r : LlmModelRegistration) (n : ℕ) (d : Db)
        → Later any_token d.executions (call r n d).db.executions)
      → (req : Request) (e : LlmExecution) (token now duration : ℕ)
        (route : List LlmModelRegistration) (db after : Db) (p : PersistedLlmExecutionResult)
        (s : Status)
      → e.status ≡ s
      → Reach db.executions
      → find (has_id e.id) db.executions ≡ some e
      → proceed call validate encode result_fingerprint req e token now duration route db
        ≡ (ok p, after)
      → (p.execution_id ≡ e.id) × IsDone e.id p.validated_output after.executions
  unfolding proceed
  proceed-Stored protocol req e token now duration route db after p pending is reached found h =
      run_route-Stored call validate encode result_fingerprint protocol (key_of e) req.lease_owner
        token now duration route db after p reached (ground arith)
  proceed-Stored protocol req e token now duration route db after p running is reached found h =
      run_route-Stored call validate encode result_fingerprint protocol (key_of e) req.lease_owner
        token now duration route db after p reached (ground arith)
  proceed-Stored protocol req e token now duration route db after p completed is reached found h =
      elim (Option-cases e.validated_output_snapshot) [
        | inl missing ↦ absurd (ground arith)
        | inr (output, kept) ↦
            let same_db : db ≡ after = ground arith in
            let text : output ≡ p.validated_output = ground arith in
            (
              ground arith,
              subst (λ d. IsDone e.id p.validated_output d.executions) same_db
                  (record {
                    row = e;
                    found = found;
                    done = rw is refl;
                    output_is = kept ∙ ap some text;
                  }),
            )
      ]
  proceed-Stored protocol req e token now duration route db after p failed is reached found h =
      let reopened = (reopen_transient_failure (key_of e) db.executions).1 in
      let step : Step any_token db.executions
          ((reopen_transient_failure (key_of e) db.executions).1) =
        Step.reopen (key_of e) in
      elim (Bool-cases ((reopen_transient_failure (key_of e) db.executions).0)) [
        | inr final ↦ absurd (ground arith)
        | inl open_again ↦
            run_route-Stored call validate encode result_fingerprint protocol (key_of e)
              req.lease_owner token now duration route (record db { executions = reopened }) after p
              (next reached step) (ground arith)
      ]

  module _ (registrations : Dict LlmModelRegistration) (plans : Dict LlmRoutePlan)
      (required : List Text) (fingerprint : Text → Text → ℕ) (lease_duration : ℕ) where
    execute-row :
        (req : Request) (new_id token now : ℕ) (db after : Db) (p : PersistedLlmExecutionResult)
        → execute call validate encode result_fingerprint registrations plans required fingerprint
            lease_duration req new_id token now db
          ≡ (ok p, after)
        → (route : ResolvedLlmRoute) × (e : LlmExecution) × (resolve registrations plans
              req.route_name required
            ≡ ok route)
          × ((create_or_replay req (fingerprint req.envelope req.route_name) new_id db.executions).0
              ≡ ok e)
          × (proceed call validate encode result_fingerprint req e token now lease_duration
                route.registrations
                (record db {
                  executions =
                      (create_or_replay req
                        (fingerprint req.envelope req.route_name)
                        new_id
                        db.executions).1;
                })
              ≡ (ok p, after))
    unfolding execute
    execute-row req new_id token now db after p h =
        let print = fingerprint req.envelope req.route_name in
        elim (Result-cases (resolve registrations plans req.route_name required)) [
          | inr (e, unresolved) ↦ absurd (ground arith)
          | inl (route, resolved) ↦
              elim (Result-cases ((create_or_replay req print new_id db.executions).0)) [
                | inr (e, refused) ↦ absurd (ground arith)
                | inl (e, there) ↦ (route, e, resolved, there, ground arith)
              ]
        ]

    -- A result that `execute` returns, fresh or replayed, is in the table: the row of the request has the
    -- returned identifier and is completed with the returned output. It assumes that what happens while
    -- a provider answers is a sequence of the table's transactions.
    pub execute-IsDone :
        ((r : LlmModelRegistration) (n : ℕ) (d : Db)
          → Later any_token d.executions (call r n d).db.executions)
        → (req : Request) (new_id token now : ℕ) (db after : Db) (p : PersistedLlmExecutionResult)
        → Reach db.executions
        → execute call validate encode result_fingerprint registrations plans required fingerprint
            lease_duration req new_id token now db
          ≡ (ok p, after)
        → IsDone p.execution_id p.validated_output after.executions
          × IsFor req (fingerprint req.envelope req.route_name) p.execution_id after.executions
    execute-IsDone protocol req new_id token now db after p reached h =
        let print = fingerprint req.envelope req.route_name in
        let (route, e, resolved, there, rest) = execute-row req new_id token now db after p h in
        let created : Db = record db {
          executions = (create_or_replay req print new_id db.executions).1;
        } in
        let (is_for, row_is) =
          create_or_replay-IsFor req print new_id db.executions e reached there in
        let made = create_or_replay-Later req print new_id db.executions in
        let found : find (has_id e.id) created.executions ≡ some e =
          is_for.found ∙ ap some row_is in
        let (id_is, done) =
          proceed-Stored protocol req e token now lease_duration route.registrations created after p
            e.status refl (Reach-Later reached made) found rest in
        let moved =
          proceed-Later call validate encode result_fingerprint protocol req e token now
            lease_duration route.registrations created e.status refl in
        let at_end : Later any_token created.executions after.executions =
          subst (Later any_token created.executions) (ap (λ r. r.1.executions) rest) moved in
        rw id_is (done, Later-IsFor req print e.id at_end is_for)

    execute-replays :
        (req : Request) (new_id token now i : ℕ) (output : Text) (route : ResolvedLlmRoute)
        (db : Db)
        → Reach db.executions
        → resolve registrations plans req.route_name required ≡ ok route
        → IsDone i output db.executions
        → IsFor req (fingerprint req.envelope req.route_name) i db.executions
        → execute call validate encode result_fingerprint registrations plans required fingerprint
            lease_duration req new_id token now db
          ≡ (ok (record { execution_id = i; validated_output = output; replayed = true }), db)
    unfolding execute proceed
    execute-replays req new_id token now i output route db reached resolved d v =
        let print = fingerprint req.envelope req.route_name in
        let read = create_or_replay-done req print new_id i output db.executions reached v in
        let one_row : v.row ≡ d.row = ground (arith, v.found, d.found) in
        let done : v.row.status ≡ completed = rw one_row (completed-status d.row.status d.done) in
        let kept : v.row.validated_output_snapshot ≡ some output = rw one_row (d.output_is) in
        let id_is : v.row.id ≡ i = ground (arith, find-holds (has_id i) db.executions v.found) in
        ground arith

-- Once `execute` has returned a result on a reachable table, where what happens while a provider
-- answers is a sequence of the table's transactions, the same request gets that result: in every
-- later state of the table it is answered with the same identifier and output, as a replay that asks
-- no provider and writes nothing, whatever the providers, the validator, the time, the token and the
-- lease would be.
pub execute-once :
    (call call_later : LlmModelRegistration → ℕ → Db → Reply)
    (validate encode validate_later encode_later : Text → Option Text)
    (result_fingerprint fingerprint_later : Text → ℕ) (registrations : Dict LlmModelRegistration)
    (plans : Dict LlmRoutePlan) (required : List Text) (fingerprint : Text → Text → ℕ)
    (lease_duration duration_later : ℕ)
    → ((r : LlmModelRegistration) (n : ℕ) (d : Db)
        → Later any_token d.executions (call r n d).db.executions)
    → (req : Request) (new_id token now id_later token_later now_later : ℕ) (db after final : Db)
      (p : PersistedLlmExecutionResult)
    → Reach db.executions
    → execute call validate encode result_fingerprint registrations plans required fingerprint
        lease_duration req new_id token now db
      ≡ (ok p, after)
    → Later any_token after.executions final.executions
    → execute call_later validate_later encode_later fingerprint_later registrations plans required
        fingerprint duration_later req id_later token_later now_later final
      ≡ (
        ok (record {
          execution_id = p.execution_id;
          validated_output = p.validated_output;
          replayed = true;
        }),
        final,
      )
execute-once call call_later validate encode validate_later encode_later result_fingerprint
      fingerprint_later registrations plans required fingerprint lease_duration duration_later
      protocol req new_id token now id_later token_later now_later db after final p reached h
      after_it =
    let print = fingerprint req.envelope req.route_name in
    let (route, e, resolved, _, _) =
      execute-row call validate encode result_fingerprint registrations plans required fingerprint
        lease_duration req new_id token now db after p h in
    let (done, is_for) =
      execute-IsDone call validate encode result_fingerprint registrations plans required
        fingerprint lease_duration protocol req new_id token now db after p reached h in
    let whole =
      execute-Later call validate encode result_fingerprint registrations plans required fingerprint
        lease_duration protocol req new_id token now db in
    let reached_after : Reach after.executions =
      Reach-Later reached
        (subst (Later any_token db.executions) (ap (λ r. r.1.executions) h) whole) in
    let kept : IsDone p.execution_id p.validated_output final.executions = record {
      row = done.row;
      found =
          completed-final any_token p.execution_id done.row after.executions final.executions
            reached_after done.found done.done after_it;
      done = done.done;
      output_is = done.output_is;
    } in
    execute-replays call_later validate_later encode_later fingerprint_later registrations plans
      required fingerprint duration_later req id_later token_later now_later p.execution_id
      p.validated_output route final (Reach-Later reached_after after_it) resolved kept
      (Later-IsFor req print p.execution_id after_it is_for)
