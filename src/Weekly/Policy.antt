-- ===== src/Weekly/Policy.antt =====
-- app/modules/operator/policies/weekly_growth_policy.py: the legal transitions of runs, plans and
-- actions, and the approval of an exact asset revision.
use shiptawk_be.Prelude.{
  ℕ, Bool, true, ◌&&◌, Option, some, List, [], ◌∷◌, any, take, sorted, ltb, leb, ◌==◌, same_id,
  Result, ok, err, guard, ◌>>◌, if◌then◌else◌,
}

-- What the service raises: `LookupError`, `DomainConflictError`, `CommandIdempotencyConflictError`,
-- `EventIdempotencyConflictError`, `ValueError`, and a refused insert.
pub data CommandError : Type 0 where
  lookup_error domain_conflict key_conflict event_conflict value_error refused_insert : CommandError

pub data RunStatus : Type 0 where
  pending running completed stopped failed : RunStatus

pub data PlanStatus : Type 0 where
  draft active cancelled preparing ready completed stopped : PlanStatus

pub data ActionStatus : Type 0 where
  pending ready executing completed failed cancelled dismissed : ActionStatus

abbrev pub run_code : RunStatus → ℕ
run_code RunStatus.pending = 0
run_code RunStatus.running = 1
run_code RunStatus.completed = 2
run_code RunStatus.stopped = 3
run_code RunStatus.failed = 4

abbrev pub plan_code : PlanStatus → ℕ
plan_code PlanStatus.draft = 0
plan_code PlanStatus.active = 1
plan_code PlanStatus.cancelled = 2
plan_code PlanStatus.preparing = 3
plan_code PlanStatus.ready = 4
plan_code PlanStatus.completed = 5
plan_code PlanStatus.stopped = 6

abbrev pub action_code : ActionStatus → ℕ
action_code ActionStatus.pending = 0
action_code ActionStatus.ready = 1
action_code ActionStatus.executing = 2
action_code ActionStatus.completed = 3
action_code ActionStatus.failed = 4
action_code ActionStatus.cancelled = 5
action_code ActionStatus.dismissed = 6

-- `==` of statuses, by their codes.
abbrev pub same_action : ActionStatus → ActionStatus → Bool
same_action a b = action_code a == action_code b

-- `_transition`: staying is allowed, and so are the listed targets.
unfoldable pub transition :
    {S : Type 0} → (S → S → Bool) → (S → List S) → (current target : S) → Result CommandError S
transition same allowed current target =
    if same target current
    then ok target
    else if any (same target) (allowed current)
    then ok target
    else err CommandError.domain_conflict

abbrev pub run_targets : RunStatus → List RunStatus
run_targets RunStatus.pending = RunStatus.running ∷ RunStatus.stopped ∷ RunStatus.failed ∷ []
run_targets RunStatus.running = RunStatus.completed ∷ RunStatus.stopped ∷ RunStatus.failed ∷ []
run_targets _ = []

unfoldable pub transition_run : RunStatus → RunStatus → Result CommandError RunStatus
unfolding transition
transition_run = transition (λ a b. run_code a == run_code b) run_targets

abbrev pub plan_targets : PlanStatus → List PlanStatus
plan_targets PlanStatus.preparing = PlanStatus.ready ∷ PlanStatus.stopped ∷ []
plan_targets PlanStatus.ready = PlanStatus.completed ∷ PlanStatus.stopped ∷ []
plan_targets _ = []

unfoldable pub transition_plan : PlanStatus → PlanStatus → Result CommandError PlanStatus
unfolding transition
transition_plan = transition (λ a b. plan_code a == plan_code b) plan_targets

abbrev pub action_targets : ActionStatus → List ActionStatus
action_targets ActionStatus.pending = ActionStatus.ready ∷ ActionStatus.dismissed ∷ []
action_targets ActionStatus.ready = ActionStatus.executing ∷ ActionStatus.dismissed ∷ []
action_targets ActionStatus.executing =
    ActionStatus.completed ∷ ActionStatus.failed ∷ ActionStatus.dismissed ∷ []
action_targets ActionStatus.failed = ActionStatus.ready ∷ ActionStatus.dismissed ∷ []
action_targets _ = []

unfoldable pub transition_action : ActionStatus → ActionStatus → Result CommandError ActionStatus
unfolding transition
transition_action = transition same_action action_targets

-- `assert_exact_asset_revision`: an absent approval covers nothing.
unfoldable pub assert_exact_asset_revision :
    (approved_id approved_revision : Option ℕ) (current_id current_revision : ℕ)
    → Result CommandError (Unit {0})
assert_exact_asset_revision approved_id approved_revision current_id current_revision =
    guard
      (same_id approved_id (some current_id) && same_id approved_revision (some current_revision))
      CommandError.domain_conflict

-- `assert_product_scope`
unfoldable pub assert_product_scope : ℕ → Option ℕ → Result CommandError (Unit {0})
assert_product_scope expected actual =
    guard (same_id actual (some expected)) CommandError.domain_conflict

pub record Candidate : Type 0 where
  pub id : ℕ
  pub priority_score : ℕ

-- The sort key `(-priorityScore, id)`.
unfoldable pub ranks_before : Candidate → Candidate → Bool
ranks_before a b =
    if ltb b.priority_score a.priority_score
    then true
    else a.priority_score == b.priority_score && ltb a.id b.id

unfoldable pub select_recommendations : List Candidate → ℕ → Result CommandError (List Candidate)
unfolding ranks_before
select_recommendations candidates limit =
    guard (leb limit 3) CommandError.value_error >> ok (take limit (sorted ranks_before candidates))
