-- ===== src/Weekly/Runs.antt =====
-- `scheduled_weekly_key`, `get_run_by_key` and `create_weekly_run`. Creations are taken one after
-- another: the source holds no lock between its check for an active run and the insert.
pub mod Single
use shiptawk_be.Prelude.{
  ℕ, Bool, true, false, ◌&&◌, ◌||◌, not, Option, none, some, List, [], ◌∷◌, ◌++◌, find, any, ltb,
  ◌==◌, is_id, same_id, Result, ok, err, guard, ◌>>=◌, ◌>>◌, if◌then◌else◌,
}
use shiptawk_be.Text.{Text, same_text}
use shiptawk_be.Weekly.Policy.{RunStatus}

-- `ValueError`, `ActiveWeeklyRunConflictError` with the active run, and a refused insert.
pub data RunError : Type 0 where
  bad_value refused_run : RunError
  active_conflict : ℕ → RunError

pub data RunKind : Type 0 where
  legacy_planning opportunity_detection weekly_growth : RunKind

pub data RunTrigger : Type 0 where
  manual scheduled significant_event : RunTrigger

-- Versions and documents that follow from these columns or are empty at creation are left out.
pub record OperatorRun : Type 0 where
  pub id : ℕ
  pub workspace_id : ℕ
  pub product_id : Option ℕ
  pub run_kind : RunKind
  pub trigger : RunTrigger
  pub status : RunStatus
  pub idempotency_key : Text
  pub logical_period_start : Option ℕ
  pub logical_period_end : Option ℕ
  pub workflow_version : Option Text
  pub created_by_actor_id : ℕ

-- The arguments of a creation.
pub record RunRequest : Type 0 where
  pub workspace_id : ℕ
  pub product_id : ℕ
  pub actor_id : ℕ
  pub period_start : ℕ
  pub period_end : ℕ
  pub workflow_version : Text
  pub trigger : RunTrigger
  pub idempotency_key : Option Text

abbrev pub is_empty : Text → Bool
is_empty [] = true
is_empty _ = false

abbrev pub or_empty : Option Text → Text
or_empty none = []
or_empty (some key) = key

abbrev pub is_weekly : RunKind → Bool
is_weekly weekly_growth = true
is_weekly _ = false

-- `status IN ('pending', 'running')`
abbrev pub is_active_status : RunStatus → Bool
is_active_status RunStatus.pending = true
is_active_status RunStatus.running = true
is_active_status _ = false

abbrev pub is_active_run : ℕ → ℕ → OperatorRun → Bool
is_active_run workspace product r =
    r.workspace_id == workspace
    && is_id r.product_id product
    && is_weekly r.run_kind
    && is_active_status r.status

-- The query of `get_run_by_key`: runs of every kind.
abbrev pub has_run_key : ℕ → ℕ → Text → OperatorRun → Bool
has_run_key workspace product key r =
    r.workspace_id == workspace && is_id r.product_id product && same_text r.idempotency_key key

unfoldable pub get_run_by_key : ℕ → ℕ → Text → List OperatorRun → Option OperatorRun
get_run_by_key workspace product key runs = find (has_run_key workspace product key) runs

abbrev pub same_version : Option Text → Text → Bool
same_version none v = false
same_version (some u) v = same_text u v

-- The unique keys that an insert may hit: the identifier, and the weekly period of a version.
abbrev pub run_clashes : ℕ → RunRequest → OperatorRun → Bool
run_clashes new_id req r =
    r.id == new_id
    || (r.workspace_id == req.workspace_id
        && is_id r.product_id req.product_id
        && is_weekly r.run_kind
        && is_id r.logical_period_start req.period_start
        && same_version r.workflow_version req.workflow_version)

abbrev pub weekly_prefix : Text
weekly_prefix = b'w' ∷ b'e' ∷ b'e' ∷ b'k' ∷ b'l' ∷ b'y' ∷ b':' ∷ []

abbrev pub new_run : ℕ → Text → RunRequest → OperatorRun
new_run new_id key req = record {
  id = new_id;
  workspace_id = req.workspace_id;
  product_id = some req.product_id;
  run_kind = weekly_growth;
  trigger = req.trigger;
  status = RunStatus.pending;
  idempotency_key = key;
  logical_period_start = some req.period_start;
  logical_period_end = some req.period_end;
  workflow_version = some req.workflow_version;
  created_by_actor_id = req.actor_id;
}

unfoldable pub insert_run :
    ℕ → Text → RunRequest → List OperatorRun → Result RunError (OperatorRun × List OperatorRun)
insert_run new_id key req runs = do
  guard (not (any (run_clashes new_id req) runs)) refused_run
  ok (new_run new_id key req, runs ++ new_run new_id key req ∷ [])

-- `product_text` and `iso` are the texts of an identifier and of a time, `stripped` is `str.strip`.
module _ (product_text iso : ℕ → Text) (stripped : Text → Text) where
  unfoldable pub scheduled_weekly_key : ℕ → ℕ → Text → Result RunError Text
  scheduled_weekly_key product start version = do
    guard (not (is_empty (stripped version))) bad_value
    ok (weekly_prefix ++ product_text product ++ b':' ∷ iso start ++ b':' ∷ version)

  unfoldable pub run_key : RunRequest → Result RunError Text
  unfolding scheduled_weekly_key
  run_key req = elim req.trigger [
    | scheduled ↦ scheduled_weekly_key req.product_id req.period_start req.workflow_version
    | _ ↦ ok (stripped (or_empty req.idempotency_key))
  ]

  unfoldable pub create_weekly_run :
      RunRequest
      → (new_id : ℕ) → List OperatorRun
      → Result RunError (OperatorRun × List OperatorRun)
  create_weekly_run req new_id runs = do
    guard (ltb req.period_start req.period_end) bad_value
    key ← run_key req
    guard (not (is_empty key)) bad_value
    elim (get_run_by_key req.workspace_id req.product_id key runs) [
      | some r ↦ ok (r, runs)
      | none ↦ elim (find (is_active_run req.workspace_id req.product_id) runs) [
        | some r ↦ err (active_conflict r.id)
        | none ↦ insert_run new_id key req runs
      ]
    ]
