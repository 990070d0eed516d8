-- ===== src/Examples/Covering.antt =====
-- An action that is approved and then edited: a chain of commands over a store without promises.
use shiptawk_be.Prelude.{
  ℕ, ◌≡◌, refl, sym, subst, String, Option, none, some, [], ◌∷◌, sorted, Bool-cases, inl, inr,
  Result, ok, err, if◌then◌else◌,
}
use shiptawk_be.Text.{Text}
use shiptawk_be.Weekly.Policy.{CommandError, ActionStatus, transition_action}
use shiptawk_be.Weekly.Store.{
  Store, PlanAction, ApprovalStatus, AssetKind, Operation, is_action, get_action, get_exact_asset,
  get_pending_approval, latest_revision,
}
use shiptawk_be.Weekly.Commands.{
  command_replay, record_command, write_product_event, project_x_asset_to_draft,
}
use shiptawk_be.Weekly.Commands.Approve.{
  check_revision, approve_exact_revision, approve_action_revision_use_case,
}
use shiptawk_be.Weekly.Commands.Revise.{
  latest_asset, withdraw_approval, insert_asset, revise_asset_use_case,
}
use shiptawk_be.Weekly.Covered.{CoversRow, IsCovered}
use shiptawk_be.Weekly.Covered.Steps.{none_yet, next, approve, revise, Commands-IsCovered}
use shiptawk_be.Examples.Rows.{tenant, action, store, command}

abbrev before : Store
before = store ActionStatus.pending ApprovalStatus.pending

abbrev row : PlanAction
row = action ActionStatus.pending ApprovalStatus.pending

before-IsCovered : IsCovered before
before-IsCovered t i = elim (Bool-cases (is_action t i row)) [
  | inl hit ↦ subst (λ b. CoversRow t i before.assets (if b then some row else none)) (sym hit) tt
  | inr miss ↦ subst (λ b. CoversRow t i before.assets (if b then some row else none)) (sym miss) tt
]

abbrev no_post : Text → Option Text
no_post t = none

abbrev as_given : AssetKind → Text → Option Text
as_given kind t = some t

abbrev id_text : ℕ → String
id_text i = "id"

abbrev measurement_key : String → String
measurement_key k = "measurement"

abbrev store_of : Result CommandError (ℕ × Store) → Store
store_of (ok (i, after)) = after
store_of (err e) = before

abbrev approved : Store
approved = store_of (
    approve_action_revision_use_case no_post tenant 10 20 1 5 100 40 (command Operation.approve 10)
      before)

abbrev edited : Store
edited = store_of (
    revise_asset_use_case as_given tenant 20 1 21 (b'y' ∷ []) (command Operation.patch 20) approved)

run_approve :
    approve_action_revision_use_case no_post tenant 10 20 1 5 100 40
      (command Operation.approve 10)
      before
    ≡ ok (10, approved)
unfolding approve_action_revision_use_case get_action check_revision get_exact_asset latest_revision
    approve_exact_revision get_pending_approval transition_action project_x_asset_to_draft
    write_product_event command_replay record_command
run_approve = refl

run_edit :
    revise_asset_use_case as_given tenant 20 1 21 (b'y' ∷ []) (command Operation.patch 20) approved
    ≡ ok (21, edited)
unfolding revise_asset_use_case approve_action_revision_use_case get_action check_revision
    get_exact_asset latest_revision approve_exact_revision get_pending_approval transition_action
    project_x_asset_to_draft write_product_event command_replay record_command latest_asset sorted
    insert_asset withdraw_approval
run_edit = refl

Commands-IsCovered_example : IsCovered edited
Commands-IsCovered_example =
    Commands-IsCovered no_post as_given id_text measurement_key before-IsCovered (
      next
        (next none_yet
          (approve tenant 10 20 1 5 100 40 (command Operation.approve 10) 10 run_approve))
        (revise tenant 20 1 21 (b'y' ∷ []) (command Operation.patch 20) 21 run_edit))
