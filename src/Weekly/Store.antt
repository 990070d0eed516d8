-- ===== src/Weekly/Store.antt =====
-- The tables behind the commands on plan actions, and the queries of
-- app/modules/operator/repositories/weekly_growth_repository.py. Statuses and kinds are those of the
-- check constraints; documents that no command reads are left out.
use shiptawk_be.Prelude.{
  ℕ, ◌+◌, Bool, true, false, ◌&&◌, String, Option, none, some, List, [], ◌∷◌, find, keep, max, ◌==◌,
  is_id, same_id,
}
use shiptawk_be.Text.{Text}
use shiptawk_be.Outbox.{Table}
use shiptawk_be.Weekly.Policy.{ActionStatus, action_code}

-- A workspace and a product of it: each query filters by both.
pub record Tenant : Type 0 where
  pub workspace : ℕ
  pub product : ℕ

pub data ApprovalStatus : Type 0 where
  not_required pending approved rejected : ApprovalStatus

pub data RiskOutcome : Type 0 where
  pass review block : RiskOutcome

pub data AssetKind : Type 0 where
  seo_page_update blog_brief product_update x_draft no_asset : AssetKind

pub record PlanAction : Type 0 where
  pub id : ℕ
  pub workspace_id : ℕ
  pub product_id : Option ℕ
  pub recommendation_id : Option ℕ
  pub status : ActionStatus
  pub approval_status : ApprovalStatus
  pub approved_asset_id : Option ℕ
  pub approved_asset_revision : Option ℕ
  pub measurement_window_days : Option ℕ
  pub measurement_due_at : Option ℕ
  pub completed_by_actor_id : Option ℕ
  pub completed_at : Option ℕ
  pub dismissed_by_actor_id : Option ℕ
  pub dismissed_at : Option ℕ
  pub dismissal_reason : Option String
  pub dismissal_comment : Option String

pub record PreparedAsset : Type 0 where
  pub id : ℕ
  pub workspace_id : ℕ
  pub product_id : ℕ
  pub recommendation_id : ℕ
  pub action_id : Option ℕ
  pub revision : ℕ
  pub kind : AssetKind
  pub structured_content : Text

pub record ApprovalRequest : Type 0 where
  pub id : ℕ
  pub workspace_id : ℕ
  pub product_id : Option ℕ
  pub action_id : ℕ
  pub asset_id : Option ℕ
  pub asset_revision : Option ℕ
  pub status : ApprovalStatus
  pub reason : Option String
  pub decided_by_actor_id : Option ℕ
  pub decided_at : Option ℕ

pub record ActionRiskReview : Type 0 where
  pub workspace_id : ℕ
  pub product_id : ℕ
  pub asset_id : ℕ
  pub asset_revision : ℕ
  pub final_outcome : RiskOutcome

pub record ActionEvent : Type 0 where
  pub workspace_id : ℕ
  pub product_id : ℕ
  pub action_id : ℕ
  pub event_type : ActionStatus
  pub previous_status : ActionStatus
  pub new_status : ActionStatus
  pub actor_id : ℕ
  pub reason : Option String

-- The names of the commands: `action.approve`, `action.<target>`, `asset.patch`, `asset.reject`.
pub data Operation : Type 0 where
  approve patch reject : Operation
  move_to : ActionStatus → Operation

pub record Receipt : Type 0 where
  pub workspace_id : ℕ
  pub product_id : ℕ
  pub operation : Operation
  pub resource_id : ℕ
  pub idempotency_key : String
  pub payload_fingerprint : String
  pub result_resource_id : ℕ

pub data EventName : Type 0 where
  asset_approved asset_edited asset_rejected action_dismissed action_started action_completed :
      EventName

-- The idempotency key of these events is made of the name, the resource and the revision.
pub record ProductEvent : Type 0 where
  pub workspace_id : ℕ
  pub product_id : ℕ
  pub actor_id : Option ℕ
  pub event_name : EventName
  pub resource_id : ℕ
  pub resource_revision : Option ℕ

-- A decision on a recommendation; the model has those that dismissed actions leave.
pub record Decision : Type 0 where
  pub workspace_id : ℕ
  pub product_id : ℕ
  pub recommendation_id : ℕ
  pub reason : Option String
  pub comment : Option String
  pub actor_id : ℕ
  pub created_at : ℕ

pub record Recommendation : Type 0 where
  pub id : ℕ
  pub workspace_id : ℕ
  pub product_id : ℕ
  pub accepted_at : Option ℕ

pub record MeasurementWindow : Type 0 where
  pub id : ℕ
  pub workspace_id : ℕ
  pub product_id : Option ℕ
  pub action_id : ℕ
  pub starts_at : ℕ
  pub ends_at : ℕ
  pub due_at : ℕ
  pub idempotency_key : String

-- A product with its first repository, and an approved draft made from an asset revision.
pub record Product : Type 0 where
  pub id : ℕ
  pub workspace_id : ℕ
  pub user_id : ℕ
  pub repo_id : Option ℕ

pub record XDraft : Type 0 where
  pub id : ℕ
  pub workspace_id : ℕ
  pub user_id : ℕ
  pub repo_id : ℕ
  pub content : Text
  pub approved_at : ℕ
  pub asset_id : ℕ
  pub asset_revision : ℕ

-- The event that says that a draft was approved.
pub record DraftStatusEvent : Type 0 where
  pub workspace_id : ℕ
  pub user_id : ℕ
  pub repo_id : ℕ
  pub draft_id : ℕ
  pub occurred_at : ℕ

pub record Store : Type 0 where
  pub actions : List PlanAction
  pub assets : List PreparedAsset
  pub approvals : List ApprovalRequest
  pub reviews : List ActionRiskReview
  pub action_events : List ActionEvent
  pub receipts : List Receipt
  pub product_events : List ProductEvent
  pub recommendations : List Recommendation
  pub decisions : List Decision
  pub measurements : List MeasurementWindow
  pub products : List Product
  pub x_drafts : List XDraft
  pub draft_events : List DraftStatusEvent
  pub outbox : Table

abbrev pub is_action : Tenant → ℕ → PlanAction → Bool
is_action t i a = a.workspace_id == t.workspace && is_id a.product_id t.product && a.id == i

unfoldable pub get_action : Tenant → ℕ → Store → Option PlanAction
get_action t i s = find (is_action t i) s.actions

abbrev pub is_exact_asset : Tenant → ℕ → ℕ → PreparedAsset → Bool
is_exact_asset t i r x =
    x.workspace_id == t.workspace && x.product_id == t.product && x.id == i && x.revision == r

unfoldable pub get_exact_asset : Tenant → ℕ → ℕ → Store → Option PreparedAsset
get_exact_asset t i r s = find (is_exact_asset t i r) s.assets

abbrev pub is_pending : ApprovalStatus → Bool
is_pending pending = true
is_pending _ = false

abbrev pub is_approved : ApprovalStatus → Bool
is_approved approved = true
is_approved _ = false

-- At most one row per action, by a unique constraint.
abbrev pub is_approval : Tenant → ℕ → ApprovalRequest → Bool
is_approval t i r =
    r.workspace_id == t.workspace && is_id r.product_id t.product && r.action_id == i

unfoldable pub get_pending_approval : Tenant → ℕ → Store → Option ApprovalRequest
get_pending_approval t i s = find (λ r. is_approval t i r && is_pending r.status) s.approvals

abbrev pub is_review : Tenant → ℕ → ℕ → ActionRiskReview → Bool
is_review t i r v =
    v.workspace_id == t.workspace
    && v.product_id == t.product
    && v.asset_id == i
    && v.asset_revision == r

-- `max(revision)` over the assets of a recommendation and an action.
abbrev pub is_sibling : Tenant → ℕ → Option ℕ → PreparedAsset → Bool
is_sibling t recommendation action x =
    x.workspace_id == t.workspace
    && x.product_id == t.product
    && x.recommendation_id == recommendation
    && same_id x.action_id action

abbrev pub max_revision : Option ℕ → List PreparedAsset → Option ℕ
max_revision best [] = best
max_revision none (x ∷ xs) = max_revision (some x.revision) xs
max_revision (some b) (x ∷ xs) = max_revision (some (max b x.revision)) xs

unfoldable pub latest_revision : Tenant → ℕ → Option ℕ → Store → Option ℕ
latest_revision t recommendation action s =
    max_revision none (keep (is_sibling t recommendation action) s.assets)

abbrev pub operation_code : Operation → ℕ
operation_code approve = 0
operation_code patch = 1
operation_code reject = 2
operation_code (move_to s) = 3 + action_code s

abbrev pub event_code : EventName → ℕ
event_code asset_approved = 0
event_code asset_edited = 1
event_code asset_rejected = 2
event_code action_dismissed = 3
event_code action_started = 4
event_code action_completed = 5
