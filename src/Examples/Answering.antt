-- ===== src/Examples/Answering.antt =====
-- A request to a language model, the same request again, and a lease that is taken over.
use shiptawk_be.Prelude.{
  ℕ, ◌≡◌, ◌≤◌, refl, subst, ap, Bool, true, false, none, some, Option, [], ◌∷◌, ok, find, length,
  All, ◌==◌,
}
use shiptawk_be.Text.{Text}
use shiptawk_be.Llm.{
  LlmExecution, Table, key_of, flush_execution, acquire_lease, allocate_attempt, renew_lease,
  fence_update, give_lease, complete_row, count_attempt, transient_error,
}
use shiptawk_be.Llm.Rows.{has_id}
use shiptawk_be.Llm.Steps.{Step, Reach, start, next, Later, here, any_token, new_execution}
use shiptawk_be.Llm.Frozen.{IsConsistent, Reach-IsConsistent, completed-final}
use shiptawk_be.Llm.Fencing.{acquire_lease-fences}
use shiptawk_be.Llm.Route.{
  LlmModelRegistration, LlmRoutePlan, ResolvedLlmRoute, Dict, get_item, registrations_of,
  check_capabilities, resolve, resolve-bounds, is_capable,
}
use shiptawk_be.Llm.Execute.{
  Db, Generated, generated, raised, Reply, Request, PersistedLlmExecutionResult, record_attempt,
  create_or_replay, validated, complete, take_answer, attempts, run_route, proceed, execute,
  LlmExecutionAttempt, attempt_of, AttemptStatus,
}
use shiptawk_be.Llm.Loop.{execute-Later}
use shiptawk_be.Llm.Completes.{Reach-Later}
use shiptawk_be.Llm.Decides.{is_no_attempt, execute-decides}
use shiptawk_be.Llm.Replays.{execute-once}

abbrev letter : Text
letter = b'a' ∷ []

abbrev registration : LlmModelRegistration
registration = record {
  name = letter;
  provider = letter;
  model = letter;
  capabilities = letter ∷ [];
  pricing = record {
    input_per_million = 3;
    output_per_million = 5;
    cache_read_per_million = 0;
    cache_write_per_million = 0;
  };
  pricing_version = letter;
}

abbrev known : Dict LlmModelRegistration
known = (letter, registration) ∷ []

abbrev plan : LlmRoutePlan
plan = record { name = letter; steps = letter ∷ []; max_attempts = 1 }

abbrev plans : Dict LlmRoutePlan
plans = (letter, plan) ∷ []

abbrev route : ResolvedLlmRoute
route = record { name = letter; registrations = registration ∷ [] }

resolved : resolve known plans letter (letter ∷ []) ≡ ok route
unfolding resolve get_item registrations_of check_capabilities
resolved = refl

found_plan : get_item letter plans ≡ ok plan
unfolding get_item
found_plan = refl

resolve-bounds_example :
    (length route.registrations ≡ plan.max_attempts)
    × (1 ≤ length route.registrations)
    × (length route.registrations ≤ length plan.steps)
    × All (λ r. is_capable (letter ∷ []) r ≡ true) route.registrations
resolve-bounds_example =
    resolve-bounds known plans letter (letter ∷ []) plan route found_plan refl resolved

abbrev words : Generated
words = record {
  output = some letter;
  refusal = false;
  estimated_cost = none;
  input_tokens = some 10;
  output_tokens = some 20;
  cache_read_tokens = 0;
  cache_write_tokens = 0;
}

abbrev answer : LlmModelRegistration → ℕ → Db → Reply
answer r n d = record { answer = generated words; db = d; lost = false; time = 150 }

abbrev accept : Text → Option Text
accept t = some t

abbrev print : Text → ℕ
print t = 77

abbrev request_print : Text → Text → ℕ
request_print e r = 55

abbrev request : Request
request = record {
  workspace_id = 1;
  product_id = 2;
  use_case = letter;
  idempotency_key = letter;
  route_name = letter;
  envelope = letter;
  lease_owner = letter;
}

abbrev empty : Db
empty = record { executions = []; attempts = [] }

abbrev fresh : LlmExecution
fresh = new_execution 9 1 2 letter letter 55 letter

abbrev leased_row : LlmExecution
leased_row = give_lease letter 4 220 fresh

abbrev done : LlmExecution
done = complete_row 77 letter (count_attempt leased_row)

abbrev tried : LlmExecutionAttempt
tried =
    attempt_of (key_of fresh) 4 1 registration AttemptStatus.attempt_completed false (some 130) none

abbrev filled : Db
filled = record { executions = done ∷ []; attempts = tried ∷ [] }

abbrev result : PersistedLlmExecutionResult
result = record { execution_id = 9; validated_output = letter; replayed = false }

executed :
    execute answer accept accept print known plans
      (letter ∷ [])
      request_print
      120
      request
      9
      4
      100
      empty
    ≡ (ok result, filled)
unfolding execute resolve get_item registrations_of check_capabilities create_or_replay
    flush_execution proceed run_route attempts take_answer validated complete record_attempt
    acquire_lease allocate_attempt fence_update
executed = refl

quiet :
    (r : LlmModelRegistration) (n : ℕ) (d : Db)
    → Later any_token d.executions (answer r n d).db.executions
quiet r n d = here

executed-Later : Later any_token [] (
    (execute answer accept accept print known plans
      (letter ∷ [])
      request_print
      120
      request
      9
      4
      100
      empty).1.executions)
executed-Later =
    execute-Later answer accept accept print known plans (letter ∷ []) request_print 120 quiet
      request 9 4 100 empty

reached : Reach (done ∷ [])
reached = subst Reach (ap (λ r. r.1.executions) executed) (Reach-Later start executed-Later)

Reach-IsConsistent_example : IsConsistent (done ∷ [])
Reach-IsConsistent_example = Reach-IsConsistent reached

completed-final_example : find (has_id 9) (done ∷ []) ≡ some done
completed-final_example =
    completed-final any_token 9 done (done ∷ []) (done ∷ []) reached refl refl here

-- A provider that is down.
abbrev silence : LlmModelRegistration → ℕ → Db → Reply
silence r n d = record { answer = raised transient_error; db = d; lost = true; time = 0 }

abbrev replay : PersistedLlmExecutionResult
replay = record { execution_id = 9; validated_output = letter; replayed = true }

execute-once_example :
    execute silence accept accept print known plans
      (letter ∷ [])
      request_print
      60
      request
      10
      5
      900
      filled
    ≡ (ok replay, filled)
execute-once_example =
    execute-once answer silence accept accept accept accept print print known plans (letter ∷ [])
      request_print 120 60 quiet request 9 4 100 10 5 900 empty filled filled result start executed
      here

abbrev waiting : Table
waiting = fresh ∷ []

abbrev held_table : Table
held_table = give_lease letter 6 400 fresh ∷ []

queued : flush_execution fresh [] ≡ some waiting
unfolding flush_execution
queued = refl

abbrev old_token : ℕ → Bool
old_token t = t == 4

taken : acquire_lease (key_of fresh) letter 6 300 400 waiting ≡ (true, held_table)
unfolding acquire_lease
taken = refl

acquire_lease-fences_example :
    (allocate_attempt (key_of fresh) 4 310 held_table ≡ (none, held_table))
    × (renew_lease (key_of fresh) 4 310 500 held_table ≡ (false, held_table))
    × (fence_update (key_of fresh) 4 310 (complete_row 77 letter) held_table ≡ (false, held_table))
acquire_lease-fences_example =
    acquire_lease-fences old_token (key_of fresh) letter 6 4 300 400 310 500
      (complete_row 77 letter) waiting held_table held_table
      (next start (Step.create 9 1 2 letter letter 55 letter queued)) taken refl refl here

execute-decides_example :
    is_no_attempt (
      (execute silence accept accept print known plans
        (letter ∷ [])
        request_print
        60
        request
        9
        4
        100
        empty).0)
    ≡ false
execute-decides_example =
    execute-decides silence accept accept print known plans (letter ∷ []) request_print 60 request 9
      4 100 empty plan found_plan refl
