-- ===== src/Weekly/Commands/Approve.antt =====
-- `approve_exact_revision` and `approve_action_revision_use_case`. A command that raises is rolled
-- back and returns no store; one that returns gives the identifier of its resource.
pub mod Exact
use shiptawk_be.Prelude.{
  ℕ, Bool, true, false, ◌&&◌, not, Option, none, some, List, [], ◌∷◌, find, update, ◌==◌, is_id,
  same_id, Result, ok, err, guard, ◌>>=◌, ◌>>◌, if◌then◌else◌,
}
use shiptawk_be.Text.{Text}
use shiptawk_be.Weekly.Policy.{CommandError, ActionStatus, transition_action}
use shiptawk_be.Weekly.Store.{
  Tenant, Store, PlanAction, PreparedAsset, ApprovalRequest, ApprovalStatus, ActionRiskReview,
  EventName, is_action, is_approval, is_approved, is_pending, is_review, get_action,
  get_exact_asset, get_pending_approval, latest_revision,
}
use shiptawk_be.Weekly.Commands.{
  Command, or_raise, command_replay, record_command, write_product_event, is_block,
  project_x_asset_to_draft,
}

-- The approval row after the approval of a revision.
abbrev pub approve_request : ℕ → ℕ → ℕ → ℕ → ApprovalRequest → ApprovalRequest
approve_request i r actor now a = record a {
  asset_id = some i;
  asset_revision = some r;
  status = ApprovalStatus.approved;
  decided_by_actor_id = some actor;
  decided_at = some now;
}

-- The action row after it.
abbrev pub approve_action : ℕ → ℕ → ActionStatus → PlanAction → PlanAction
approve_action i r status a = record a {
  approved_asset_id = some i;
  approved_asset_revision = some r;
  approval_status = ApprovalStatus.approved;
  status = status;
}

abbrev pub already_approved : ℕ → ℕ → PlanAction → Bool
already_approved i r a =
    is_approved a.approval_status
    && is_id a.approved_asset_id i
    && is_id a.approved_asset_revision r

-- The pending approval request of an action.
abbrev pub is_open_approval : Tenant → ℕ → ApprovalRequest → Bool
is_open_approval t i r = is_approval t i r && is_pending r.status

-- The checks in front of an approval: the asset belongs to the action, its revision is the latest, and its
-- risk review is there and does not block.
unfoldable pub check_revision :
    (t : Tenant) (action_id asset_id revision : ℕ) → Store → Result CommandError (Unit {0})
check_revision t action_id asset_id revision s = do
  asset ← or_raise (get_exact_asset t asset_id revision s) CommandError.lookup_error
  guard (is_id asset.action_id action_id) CommandError.lookup_error
  guard (same_id (latest_revision t asset.recommendation_id (some action_id) s) (some revision))
      CommandError.domain_conflict
  review ← or_raise (find (is_review t asset_id revision) s.reviews) CommandError.domain_conflict
  guard (not (is_block review.final_outcome)) CommandError.domain_conflict

module _ (post_of : Text → Option Text) (t : Tenant)
    (action_id asset_id revision actor now draft_id : ℕ) where
  unfoldable pub approve_exact_revision : Store → Result CommandError Store
  approve_exact_revision s = do
    action ← or_raise (get_action t action_id s) CommandError.lookup_error
    asset ← or_raise (get_exact_asset t asset_id revision s) CommandError.lookup_error
    approval ← or_raise (get_pending_approval t action_id s) CommandError.lookup_error
    guard (is_id asset.action_id action.id) CommandError.lookup_error
    status ← transition_action action.status ActionStatus.ready
    project_x_asset_to_draft post_of t asset_id revision now draft_id (record s {
      approvals =
          update (is_open_approval t action_id) (approve_request asset_id revision actor now)
            s.approvals;
      actions = update (is_action t action_id) (approve_action asset_id revision status) s.actions;
    })

  module _ (command : Command) where
    unfoldable pub approve_fresh : Store → Result CommandError (ℕ × Store)
    approve_fresh s = do
      action ← or_raise (get_action t action_id s) CommandError.lookup_error
      if already_approved asset_id revision action
          then ok (action.id, record_command command action.id s)
          else do
            check_revision t action_id asset_id revision s
            approved ← approve_exact_revision s
            noted ←
                write_product_event
                  (record {
                    workspace_id = t.workspace;
                    product_id = t.product;
                    actor_id = some actor;
                    event_name = EventName.asset_approved;
                    resource_id = asset_id;
                    resource_revision = some revision;
                  })
                  approved
            ok (action.id, record_command command action.id noted)

    -- A replayed command returns the action that its receipt names.
    abbrev pub replay_action : Store → ℕ → Result CommandError (ℕ × Store)
    replay_action s i = do
      action ← or_raise (get_action t i s) CommandError.lookup_error
      ok (action.id, s)

    unfoldable pub approve_action_revision_use_case : Store → Result CommandError (ℕ × Store)
    unfolding approve_fresh
    approve_action_revision_use_case s = do
      replay ← command_replay command s
      elim replay [ some i ↦ replay_action s i | none ↦ approve_fresh s ]
