-- ===== src/Weekly/Commands/Revise/Edited.antt =====
-- What `revise_asset_use_case` leaves of the assets, of the action and of its approval requests.
use shiptawk_be.Prelude.{
  ℕ, ◌+◌, ◌≡◌, refl, ◌⊎◌, inl, inr, true, false, Option, none, some, [], ◌∷◌, ◌++◌, find, update,
  ok, All, All-intro, All-update,
}
use shiptawk_be.Text.{Text, same_text}
use shiptawk_be.Weekly.Policy.{ActionStatus}
use shiptawk_be.Weekly.Store.{
  Tenant, Store, PlanAction, PreparedAsset, ApprovalRequest, ApprovalStatus, AssetKind, is_approval,
  get_action, get_exact_asset,
}
use shiptawk_be.Weekly.Commands.{Command, record_command}
use shiptawk_be.Weekly.Commands.Revise.{
  is_asset, or_else, unready, withdraw_action, withdraw_request, next_revision, revise_fresh,
}
use shiptawk_be.Weekly.Commands.Revise.Withdraws.{revise_fresh-ok}
use shiptawk_be.Weekly.Commands.Revise.Newest.{IsNewest, latest_asset-IsNewest}

-- A new revision of the latest one.
pub record IsRevision (t : Tenant) (root latest : PreparedAsset) (content : Text) (new_id : ℕ)
    (new : PreparedAsset) : Type 0 where
  pub identity : new.id ≡ new_id
  pub workspace : new.workspace_id ≡ t.workspace
  pub product : new.product_id ≡ t.product
  pub recommendation : new.recommendation_id ≡ root.recommendation_id
  pub action : new.action_id ≡ root.action_id
  pub number : new.revision ≡ latest.revision + 1
  pub kind : new.kind ≡ root.kind
  pub document : new.structured_content ≡ content

-- The action without its approval; one that was ready is pending again.
pub record IsWithdrawn (old new : PlanAction) : Type 0 where
  pub no_asset : new.approved_asset_id ≡ none
  pub no_revision : new.approved_asset_revision ≡ none
  pub undecided : new.approval_status ≡ ApprovalStatus.pending
  pub status :
      ((old.status ≡ ActionStatus.ready) × (new.status ≡ ActionStatus.pending))
      ⊎ ((old.status ≡ ActionStatus.ready → ⊥) × (new.status ≡ old.status))

pub record IsUndecided (r : ApprovalRequest) : Type 0 where
  pub pending : r.status ≡ ApprovalStatus.pending
  pub no_asset : r.asset_id ≡ none
  pub no_revision : r.asset_revision ≡ none
  pub no_time : r.decided_at ≡ none
  pub no_actor : r.decided_by_actor_id ≡ none

unready-cases :
    (s : ActionStatus)
    → ((s ≡ ActionStatus.ready) × (unready s ≡ ActionStatus.pending))
      ⊎ ((s ≡ ActionStatus.ready → ⊥) × (unready s ≡ s))
unready-cases ActionStatus.ready = inl (refl, refl)
unready-cases ActionStatus.pending = inr ((λ h. cc), refl)
unready-cases s = inr ((λ h. cc), refl)

withdraw_action-IsWithdrawn : (a : PlanAction) → IsWithdrawn a (withdraw_action a)
withdraw_action-IsWithdrawn a = record {
  no_asset = refl;
  no_revision = refl;
  undecided = refl;
  status = unready-cases a.status;
}

requests-IsUndecided :
    (t : Tenant) (i : ℕ) (s : Store)
    → All
        (λ r. (is_approval t i r ≡ false) ⊎ IsUndecided r)
        (update (is_approval t i) withdraw_request s.approvals)
requests-IsUndecided t i s =
    All-update _ (is_approval t i) withdraw_request s.approvals
      (All-intro _
        (λ r own. inr (record {
          pending = refl;
          no_asset = refl;
          no_revision = refl;
          no_time = refl;
          no_actor = refl;
        }))
        s.approvals)
      (All-intro _ (λ r other. inl other) s.approvals)

-- A revision that is no replay and returns, of an asset that has an action. With `latest` a row of the
-- asset of the greatest revision: either that revision is the one named, and one row is added, the
-- submitted document as the revision after it; the action has no approved asset and no approved
-- revision, its approval is pending, it is `pending` if it was `ready` and else has the status it
-- had; and no request for its approval has a decision. Or the revision named is the one before, the
-- latest has the submitted document, and nothing but the receipt is written.
pub revise_fresh-withdraws :
    (validated : AssetKind → Text → Option Text) (t : Tenant) (asset_id revision new_id : ℕ)
    (submitted : Text) (c : Command) (s after : Store) (i : ℕ) (root : PreparedAsset)
    (action_id : ℕ)
    → or_else (get_exact_asset t asset_id revision s) (find (is_asset t asset_id) s.assets)
      ≡ some root
    → root.action_id ≡ some action_id
    → revise_fresh validated t asset_id revision new_id submitted c s ≡ ok (i, after)
    → (latest : PreparedAsset) × (content : Text) × IsNewest t root latest s
      × (validated root.kind submitted ≡ some content)
      × (((new : PreparedAsset) × (old : PlanAction) × (changed : PlanAction) × (revision
              ≡ latest.revision)
            × (i ≡ new_id)
            × IsRevision t root latest content new_id new
            × (after.assets ≡ s.assets ++ new ∷ [])
            × (get_action t action_id s ≡ some old)
            × (get_action t action_id after ≡ some changed)
            × IsWithdrawn old changed
            × All (λ r. (is_approval t action_id r ≡ false) ⊎ IsUndecided r) after.approvals)
          ⊎ (revision + 1 ≡ latest.revision)
            × (same_text latest.structured_content content ≡ true)
            × (i ≡ latest.id)
            × (after ≡ record_command c latest.id s))
revise_fresh-withdraws validated t asset_id revision new_id submitted c s after i root action_id
      there owner h =
    let (latest, content, newest, valid, outcome) =
      revise_fresh-ok validated t asset_id revision new_id submitted c s after i root action_id
        there owner h in
    (
      latest,
      content,
      latest_asset-IsNewest t root latest s newest,
      valid,
      elim outcome [
        | inl (old, named, answer, before, row, added, requests) ↦ inl (
          next_revision validated t asset_id revision new_id submitted root latest content,
          old,
          withdraw_action old,
          named,
          answer,
          record {
            identity = refl;
            workspace = refl;
            product = refl;
            recommendation = refl;
            action = refl;
            number = refl;
            kind = refl;
            document = refl;
          },
          added,
          before,
          row,
          withdraw_action-IsWithdrawn old,
          rw requests (requests-IsUndecided t action_id s),
        )
        | inr replayed ↦ inr replayed
      ],
    )
