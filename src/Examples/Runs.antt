-- ===== src/Examples/Runs.antt =====
-- A scheduled run, and the same one again.
use shiptawk_be.Prelude.{ℕ, ◌+◌, ◌≡◌, refl, none, [], ◌∷◌, arith, ok}
use shiptawk_be.Text.{Text}
use shiptawk_be.Weekly.Runs.{
  OperatorRun, RunRequest, RunTrigger, new_run, insert_run, get_run_by_key, run_key,
  create_weekly_run,
}
use shiptawk_be.Weekly.Runs.Single.{IsSingle, create_weekly_run-IsSingle, create_weekly_run-replays}

abbrev digit : ℕ → Text
digit i = (b'0' + i) ∷ []

abbrev as_given : Text → Text
as_given t = t

abbrev request : RunRequest
request = record {
  workspace_id = 1;
  product_id = 2;
  actor_id = 3;
  period_start = 4;
  period_end = 8;
  workflow_version = b'v' ∷ [];
  trigger = RunTrigger.scheduled;
  idempotency_key = none;
}

abbrev again : RunRequest
again = record request { actor_id = 9; period_end = 7 }

abbrev key : Text
key = b'w' ∷ b'e' ∷ b'e' ∷ b'k' ∷ b'l' ∷ b'y' ∷ b':' ∷ b'2' ∷ b':' ∷ b'4' ∷ b':' ∷ b'v' ∷ []

abbrev run : OperatorRun
run = new_run 11 key request

run_create : create_weekly_run digit digit as_given request 11 [] ≡ ok (run, run ∷ [])
unfolding create_weekly_run run_key get_run_by_key insert_run
run_create = refl

no_runs-IsSingle : IsSingle []
no_runs-IsSingle workspace product = omega arith

create_weekly_run-IsSingle_example : IsSingle (run ∷ [])
create_weekly_run-IsSingle_example =
    create_weekly_run-IsSingle digit digit as_given request 11 [] (run ∷ []) run run_create
      no_runs-IsSingle

same_key : run_key digit digit as_given again ≡ run_key digit digit as_given request
unfolding run_key
same_key = refl

create_weekly_run-replays_example :
    create_weekly_run digit digit as_given again 12 (run ∷ []) ≡ ok (run, run ∷ [])
create_weekly_run-replays_example =
    create_weekly_run-replays digit digit as_given request again 11 12 [] (run ∷ []) run run_create
      refl refl same_key refl
