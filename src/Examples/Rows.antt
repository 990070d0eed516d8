-- ===== src/Examples/Rows.antt =====
-- The rows that the examples on plan actions share.
use shiptawk_be.Prelude.{ℕ, none, some, [], ◌∷◌}
use shiptawk_be.Weekly.Policy.{ActionStatus}
use shiptawk_be.Weekly.Store.{
  Tenant, Store, PlanAction, PreparedAsset, AssetKind, ApprovalRequest, ApprovalStatus,
  ActionRiskReview, RiskOutcome, Operation,
}
use shiptawk_be.Weekly.Commands.{Command}

abbrev pub tenant : Tenant
tenant = record { workspace = 1; product = 2 }

abbrev pub action : ActionStatus → ApprovalStatus → PlanAction
action status approval = record {
  id = 10;
  workspace_id = 1;
  product_id = some 2;
  recommendation_id = some 7;
  status = status;
  approval_status = approval;
  approved_asset_id = none;
  approved_asset_revision = none;
  measurement_window_days = some 14;
  measurement_due_at = none;
  completed_by_actor_id = none;
  completed_at = none;
  dismissed_by_actor_id = none;
  dismissed_at = none;
  dismissal_reason = none;
  dismissal_comment = none;
}

abbrev pub asset : PreparedAsset
asset = record {
  id = 20;
  workspace_id = 1;
  product_id = 2;
  recommendation_id = 7;
  action_id = some 10;
  revision = 1;
  kind = AssetKind.blog_brief;
  structured_content = b'x' ∷ [];
}

abbrev pub request : ApprovalRequest
request = record {
  id = 30;
  workspace_id = 1;
  product_id = some 2;
  action_id = 10;
  asset_id = none;
  asset_revision = none;
  status = ApprovalStatus.pending;
  reason = none;
  decided_by_actor_id = none;
  decided_at = none;
}

abbrev pub review : ActionRiskReview
review = record {
  workspace_id = 1;
  product_id = 2;
  asset_id = 20;
  asset_revision = 1;
  final_outcome = RiskOutcome.pass;
}

abbrev pub store : ActionStatus → ApprovalStatus → Store
store status approval = record {
  actions = action status approval ∷ [];
  assets = asset ∷ [];
  approvals = request ∷ [];
  reviews = review ∷ [];
  action_events = [];
  receipts = [];
  product_events = [];
  recommendations = [];
  decisions = [];
  measurements = [];
  products = [];
  x_drafts = [];
  draft_events = [];
  outbox = [];
}

abbrev pub command : Operation → ℕ → Command
command operation resource = record {
  tenant = tenant;
  operation = operation;
  resource_id = resource;
  idempotency_key = "key";
  fingerprint = "payload";
}
