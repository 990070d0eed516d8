-- ===== src/Weekly/Commands/Revise.antt =====
-- `revise_asset_use_case`.
pub mod Withdraws
pub mod Newest
pub mod Edited
use shiptawk_be.Prelude.{
  ℕ, ◌+◌, Bool, true, false, ◌&&◌, ◌||◌, Option, none, some, List, [], ◌∷◌, ◌++◌, find, any, keep,
  update, sorted, ltb, ◌==◌, is_id, same_id, Result, ok, err, guard, not, ◌>>=◌, ◌>>◌,
  if◌then◌else◌,
}
use shiptawk_be.Text.{Text, same_text}
use shiptawk_be.Weekly.Policy.{CommandError, ActionStatus}
use shiptawk_be.Weekly.Store.{
  Tenant, Store, PlanAction, PreparedAsset, AssetKind, ApprovalRequest, ApprovalStatus, EventName,
  is_action, is_approval, is_sibling, get_action, get_exact_asset,
}
use shiptawk_be.Weekly.Commands.{
  Command, or_raise, command_replay, record_command, write_product_event,
}

abbrev pub is_asset : Tenant → ℕ → PreparedAsset → Bool
is_asset t i x = x.workspace_id == t.workspace && x.product_id == t.product && x.id == i

-- The exact revision, or else any row of the asset.
abbrev pub or_else {ℓ} : {A : Type ℓ} → Option A → Option A → Option A
or_else (some a) b = some a
or_else none b = b

abbrev pub first {ℓ} : {A : Type ℓ} → List A → Option A
first [] = none
first (x ∷ xs) = some x

-- `order_by(revision.desc()).limit(1)`
unfoldable pub latest_asset : Tenant → PreparedAsset → Store → Option PreparedAsset
latest_asset t root s = first (
    sorted (λ a b. ltb b.revision a.revision)
      (keep (is_sibling t root.recommendation_id root.action_id) s.assets))

-- What the insert of a revision must not repeat.
abbrev pub clashes : PreparedAsset → PreparedAsset → Bool
clashes new x =
    x.id == new.id
    || (x.workspace_id == new.workspace_id
        && x.product_id == new.product_id
        && x.recommendation_id == new.recommendation_id
        && x.revision == new.revision)

-- The rows of the action and of its approval request after an edit.
abbrev pub unready : ActionStatus → ActionStatus
unready ActionStatus.ready = ActionStatus.pending
unready status = status

abbrev pub withdraw_action : PlanAction → PlanAction
withdraw_action a = record a {
  approved_asset_id = none;
  approved_asset_revision = none;
  approval_status = ApprovalStatus.pending;
  status = unready a.status;
}

abbrev pub withdraw_request : ApprovalRequest → ApprovalRequest
withdraw_request a = record a {
  status = ApprovalStatus.pending;
  asset_id = none;
  asset_revision = none;
  decided_at = none;
  decided_by_actor_id = none;
}

unfoldable pub withdraw_approval : Tenant → Option ℕ → Store → Result CommandError Store
withdraw_approval t none s = ok s
withdraw_approval t (some i) s = do
  action ← or_raise (get_action t i s) CommandError.lookup_error
  ok (record s {
    actions = update (is_action t i) withdraw_action s.actions;
    approvals = update (is_approval t i) withdraw_request s.approvals;
  })

unfoldable pub insert_asset : PreparedAsset → Store → Result CommandError Store
insert_asset new s = do
  guard (not (any (clashes new) s.assets)) CommandError.refused_insert
  ok (record s { assets = s.assets ++ new ∷ [] })

-- `validated` is the validation of a submitted document against the schema of a kind.
module _ (validated : AssetKind → Text → Option Text) (t : Tenant) (asset_id revision new_id : ℕ)
    (submitted : Text) where
  abbrev pub next_revision : PreparedAsset → PreparedAsset → Text → PreparedAsset
  next_revision root latest content = record {
    id = new_id;
    workspace_id = t.workspace;
    product_id = t.product;
    recommendation_id = root.recommendation_id;
    action_id = root.action_id;
    revision = latest.revision + 1;
    kind = root.kind;
    structured_content = content;
  }

  abbrev pub edited_event : ℕ → Store → Result CommandError Store
  edited_event number s =
      write_product_event
        (record {
          workspace_id = t.workspace;
          product_id = t.product;
          actor_id = none;
          event_name = EventName.asset_edited;
          resource_id = new_id;
          resource_revision = some number;
        })
        s

  -- On the latest revision: a new one, and the approval withdrawn.
  unfoldable pub revise_latest :
      Command → PreparedAsset → PreparedAsset → Text → Store → Result CommandError (ℕ × Store)
  revise_latest c root latest content s = do
    inserted ← insert_asset (next_revision root latest content) s
    noted ← edited_event (latest.revision + 1) inserted
    withdrawn ← withdraw_approval t root.action_id noted
    ok (new_id, record_command c new_id withdrawn)

  -- On the revision before it: the same edit again, or a conflict.
  abbrev pub revise_stale : Command → PreparedAsset → Text → Store → Result CommandError (ℕ × Store)
  revise_stale c latest content s =
      if revision + 1 == latest.revision && same_text latest.structured_content content
      then ok (latest.id, record_command c latest.id s)
      else err CommandError.domain_conflict

  unfoldable pub revise_fresh : Command → Store → Result CommandError (ℕ × Store)
  unfolding revise_latest
  revise_fresh c s = do
    root ←
        or_raise
          (or_else (get_exact_asset t asset_id revision s) (find (is_asset t asset_id) s.assets))
          CommandError.lookup_error
    content ← or_raise (validated root.kind submitted) CommandError.value_error
    latest ← or_raise (latest_asset t root s) CommandError.lookup_error
    if revision == latest.revision
        then revise_latest c root latest content s
        else revise_stale c latest content s

  -- The receipt's asset, of the tenant; its row is found by identifier alone.
  abbrev pub replay_asset : Store → ℕ → Result CommandError (ℕ × Store)
  replay_asset s i = do
    x ← or_raise (find (λ (x : PreparedAsset). x.id == i) s.assets) CommandError.lookup_error
    guard (x.workspace_id == t.workspace && x.product_id == t.product) CommandError.lookup_error
    ok (x.id, s)

  unfoldable pub revise_asset_use_case : Command → Store → Result CommandError (ℕ × Store)
  unfolding revise_fresh
  revise_asset_use_case c s = do
    replay ← command_replay c s
    elim replay [ some i ↦ replay_asset s i | none ↦ revise_fresh c s ]
