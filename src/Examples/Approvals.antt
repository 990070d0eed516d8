-- ===== src/Examples/Approvals.antt =====
-- An approval of the first revision of a blog brief.
use shiptawk_be.Prelude.{
  ℕ, ◌≡◌, refl, ◌⊎◌, true, ◌&&◌, not, Option, none, some, any, Result, ok, err,
}
use shiptawk_be.Text.{Text}
use shiptawk_be.Weekly.Policy.{CommandError, ActionStatus, transition_action}
use shiptawk_be.Weekly.Store.{
  Store, PlanAction, PreparedAsset, ApprovalStatus, Operation, is_review, latest_revision,
  get_action, get_exact_asset, get_pending_approval,
}
use shiptawk_be.Weekly.Commands.{
  Command, is_block, command_replay, record_command, write_product_event, project_x_asset_to_draft,
}
use shiptawk_be.Weekly.Commands.Approve.{
  already_approved, check_revision, approve_exact_revision, approve_fresh,
  approve_action_revision_use_case,
}
use shiptawk_be.Weekly.Commands.Approve.Exact.{approve_fresh-exact}
use shiptawk_be.Weekly.Commands.Replay.Approval.{approve_replays}
use shiptawk_be.Examples.Rows.{tenant, store, command}

abbrev before : Store
before = store ActionStatus.pending ApprovalStatus.pending

abbrev no_post : Text → Option Text
no_post t = none

abbrev approval : Command
approval = command Operation.approve 10

-- The store that a result holds, or the store before.
abbrev store_of : Result CommandError (ℕ × Store) → Store
store_of (ok (i, after)) = after
store_of (err e) = before

abbrev approved : Store
approved =
    store_of (approve_action_revision_use_case no_post tenant 10 20 1 5 100 40 approval before)

run_fresh : approve_fresh no_post tenant 10 20 1 5 100 40 approval before ≡ ok (10, approved)
unfolding approve_action_revision_use_case get_action check_revision get_exact_asset latest_revision
    approve_exact_revision get_pending_approval transition_action project_x_asset_to_draft
    write_product_event command_replay record_command
run_fresh = refl

run_use_case :
    approve_action_revision_use_case no_post tenant 10 20 1 5 100 40 approval before
    ≡ ok (10, approved)
unfolding approve_action_revision_use_case get_action check_revision get_exact_asset latest_revision
    approve_exact_revision get_pending_approval transition_action project_x_asset_to_draft
    write_product_event command_replay record_command
run_use_case = refl

approve_fresh-exact_example :
    (old new : PlanAction) × (get_action tenant 10 before ≡ some old)
    × (get_action tenant 10 approved ≡ some new)
    × (already_approved 20 1 new ≡ true)
    × ((already_approved 20 1 old ≡ true)
        ⊎ (x : PreparedAsset) × (get_exact_asset tenant 20 1 before ≡ some x)
          × (x.action_id ≡ some 10)
          × (latest_revision tenant x.recommendation_id (some 10) before ≡ some 1)
          × (any (λ v. is_review tenant 20 1 v && not (is_block v.final_outcome)) before.reviews
              ≡ true)
          × (transition_action old.status ActionStatus.ready ≡ ok ActionStatus.ready)
          × (new.status ≡ ActionStatus.ready))
approve_fresh-exact_example =
    approve_fresh-exact no_post tenant 10 20 1 5 100 40 approval before approved 10 run_fresh

approve_replays_example :
    (approve_action_revision_use_case no_post tenant 10 20 1 5 200 41 approval approved
      ≡ ok (10, approved))
    × (approve_action_revision_use_case no_post tenant 10 20 1 5 200 41
          (record approval { fingerprint = "other" })
          approved
        ≡ err CommandError.key_conflict)
approve_replays_example =
    approve_replays no_post tenant 10 20 1 5 100 40 200 41 approval before approved 10 "other"
      run_use_case refl
