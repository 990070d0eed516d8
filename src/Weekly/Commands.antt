-- ===== src/Weekly/Commands.antt =====
-- What the commands of app/modules/operator/services/weekly_growth_service.py share: receipts,
-- product events (app/modules/analytics/services/product_event_service.py), and the draft that an
-- approved asset becomes (x_asset_bridge_service.py).
pub mod Approve
pub mod Move
pub mod Revise
pub mod Reject
pub mod Replay
use shiptawk_be.Prelude.{
  ℕ, Bool, true, false, ◌&&◌, not, String, Option, none, some, List, [], ◌∷◌, ◌++◌, find, any, ◌==◌,
  is_id, same_id, str_eq, Result, ok, err, ◌>>=◌, if◌then◌else◌,
}
use shiptawk_be.Text.{Text}
use shiptawk_be.Weekly.Policy.{CommandError}
use shiptawk_be.Weekly.Store.{
  Tenant, Store, Operation, operation_code, Receipt, EventName, event_code, ProductEvent,
  ActionRiskReview, RiskOutcome, AssetKind, PreparedAsset, Product, XDraft, DraftStatusEvent,
  is_review, is_exact_asset,
}

-- `if value is None: raise error`
abbrev pub or_raise {ℓ} : {A : Type ℓ} → Option A → CommandError → Result CommandError A
or_raise none e = err e
or_raise (some a) e = ok a

-- What identifies a command: its tenant, operation, resource and key, and the payload it carries.
pub record Command : Type 0 where
  pub tenant : Tenant
  pub operation : Operation
  pub resource_id : ℕ
  pub idempotency_key : String
  pub fingerprint : String

abbrev pub is_receipt : Command → Receipt → Bool
is_receipt c r =
    r.workspace_id == c.tenant.workspace
    && r.product_id == c.tenant.product
    && operation_code r.operation == operation_code c.operation
    && r.resource_id == c.resource_id
    && str_eq r.idempotency_key c.idempotency_key

-- `_command_replay`
unfoldable pub command_replay : Command → Store → Result CommandError (Option ℕ)
command_replay c s = elim (find (is_receipt c) s.receipts) [
  | none ↦ ok none
  | some r ↦
      if str_eq r.payload_fingerprint c.fingerprint
      then ok (some r.result_resource_id)
      else err CommandError.key_conflict
]

abbrev pub receipt_of : Command → ℕ → Receipt
receipt_of c result = record {
  workspace_id = c.tenant.workspace;
  product_id = c.tenant.product;
  operation = c.operation;
  resource_id = c.resource_id;
  idempotency_key = c.idempotency_key;
  payload_fingerprint = c.fingerprint;
  result_resource_id = result;
}

-- `_record_command`
unfoldable pub record_command : Command → ℕ → Store → Store
record_command c result s = record s { receipts = s.receipts ++ receipt_of c result ∷ [] }

abbrev pub is_same_event : ProductEvent → ProductEvent → Bool
is_same_event new e =
    e.workspace_id == new.workspace_id
    && same_id e.actor_id new.actor_id
    && event_code e.event_name == event_code new.event_name
    && e.resource_id == new.resource_id
    && same_id e.resource_revision new.resource_revision

-- `write_product_event` for the product-scoped events of these commands: an event whose key is
-- taken by another payload, here by another product, raises.
unfoldable pub write_product_event : ProductEvent → Store → Result CommandError Store
write_product_event new s = elim (find (is_same_event new) s.product_events) [
  | none ↦ ok (record s { product_events = s.product_events ++ new ∷ [] })
  | some e ↦ if e.product_id == new.product_id then ok s else err CommandError.event_conflict
]

abbrev pub is_block : RiskOutcome → Bool
is_block RiskOutcome.block = true
is_block _ = false

abbrev pub is_x_draft : AssetKind → Bool
is_x_draft AssetKind.x_draft = true
is_x_draft _ = false

abbrev pub draft_exists : Tenant → ℕ → ℕ → XDraft → Bool
draft_exists t i r d = d.workspace_id == t.workspace && d.asset_id == i && d.asset_revision == r

abbrev pub is_product : Tenant → Product → Bool
is_product t p = p.workspace_id == t.workspace && p.id == t.product

-- `post_of` is the validation of a stored document as an X post.
module _ (post_of : Text → Option Text) where
  abbrev pub add_draft : Tenant → ℕ → ℕ → (now new_id : ℕ) → Text → Option Product → Store → Store
  add_draft t i r now new_id content none s = s
  add_draft t i r now new_id content (some p) s = elim p.repo_id [
    | none ↦ s
    | some repo ↦ record s {
      x_drafts =
          s.x_drafts
          ++ (record {
            id = new_id;
            workspace_id = t.workspace;
            user_id = p.user_id;
            repo_id = repo;
            content = content;
            approved_at = now;
            asset_id = i;
            asset_revision = r;
          })
            ∷ [];
      draft_events =
          s.draft_events
          ++ (record {
            workspace_id = t.workspace;
            user_id = p.user_id;
            repo_id = repo;
            draft_id = new_id;
            occurred_at = now;
          })
            ∷ [];
    }
  ]

  -- `project_x_asset_to_draft`
  unfoldable pub project_x_asset_to_draft :
      Tenant → ℕ → ℕ → (now new_id : ℕ) → Store → Result CommandError Store
  project_x_asset_to_draft t i r now new_id s =
      elim (find (λ x. is_exact_asset t i r x && is_x_draft x.kind) s.assets) [
        | none ↦ ok s
        | some asset ↦ do
          content ← or_raise (post_of asset.structured_content) CommandError.value_error
          ok (
              if any (λ v. is_review t i r v && not (is_block v.final_outcome)) s.reviews
                && not (any (draft_exists t i r) s.x_drafts)
              then add_draft t i r now new_id content (find (is_product t) s.products) s
              else s)
      ]
