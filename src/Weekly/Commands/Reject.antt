-- ===== src/Weekly/Commands/Reject.antt =====
-- `reject_asset_use_case`.
pub mod Reopens
use shiptawk_be.Prelude.{
  ℕ, Bool, true, false, ◌&&◌, String, Option, none, some, List, [], ◌∷◌, find, update, ◌==◌, Result,
  ok, err, guard, ◌>>=◌, ◌>>◌, if◌then◌else◌,
}
use shiptawk_be.Weekly.Policy.{CommandError, ActionStatus}
use shiptawk_be.Weekly.Store.{
  Tenant, Store, PlanAction, PreparedAsset, ApprovalRequest, ApprovalStatus, EventName, is_action,
  is_approval, get_action, get_exact_asset,
}
use shiptawk_be.Weekly.Commands.{
  Command, or_raise, command_replay, record_command, write_product_event,
}

abbrev pub reject_request :
    PreparedAsset → Option String → ℕ → ℕ → ApprovalRequest → ApprovalRequest
reject_request x reason actor now a = record a {
  status = ApprovalStatus.rejected;
  asset_id = some x.id;
  asset_revision = some x.revision;
  reason = reason;
  decided_by_actor_id = some actor;
  decided_at = some now;
}

-- The action goes back to `pending`, whatever its status was.
abbrev pub reject_action : PlanAction → PlanAction
reject_action a = record a {
  approval_status = ApprovalStatus.rejected;
  status = ActionStatus.pending;
}

module _ (t : Tenant) (asset_id revision actor now : ℕ) (reason : Option String) where
  abbrev pub rejected_event : Store → Result CommandError Store
  rejected_event s =
      write_product_event
        (record {
          workspace_id = t.workspace;
          product_id = t.product;
          actor_id = some actor;
          event_name = EventName.asset_rejected;
          resource_id = asset_id;
          resource_revision = some revision;
        })
        s

  -- An asset without an action has no approval request, since a request always names its action.
  abbrev pub reject_of : PreparedAsset → Option ℕ → Store → Result CommandError Store
  reject_of x none s = err CommandError.lookup_error
  reject_of x (some i) s = do
    approval ← or_raise (find (is_approval t i) s.approvals) CommandError.lookup_error
    action ← or_raise (get_action t i s) CommandError.lookup_error
    ok (record s {
      approvals = update (is_approval t i) (reject_request x reason actor now) s.approvals;
      actions = update (is_action t i) reject_action s.actions;
    })

  unfoldable pub reject_fresh : Command → Store → Result CommandError (ℕ × Store)
  reject_fresh c s = do
    x ← or_raise (get_exact_asset t asset_id revision s) CommandError.lookup_error
    rejected ← reject_of x x.action_id s
    noted ← rejected_event rejected
    ok (x.id, record_command c x.id noted)

  abbrev pub replay_rejected : Store → ℕ → Result CommandError (ℕ × Store)
  replay_rejected s i = do
    x ← or_raise (find (λ (x : PreparedAsset). x.id == i) s.assets) CommandError.lookup_error
    guard (x.workspace_id == t.workspace && x.product_id == t.product) CommandError.lookup_error
    ok (x.id, s)

  unfoldable pub reject_asset_use_case : Command → Store → Result CommandError (ℕ × Store)
  unfolding reject_fresh
  reject_asset_use_case c s = do
    replay ← command_replay c s
    elim replay [ some i ↦ replay_rejected s i | none ↦ reject_fresh c s ]
