-- ===== src/Examples/Editing.antt =====
-- An approved asset that is edited.
use shiptawk_be.Prelude.{
  ℕ, ◌+◌, ◌≡◌, refl, ◌⊎◌, true, false, All, Option, some, [], ◌∷◌, ◌++◌, find, sorted, Result, ok,
  err,
}
use shiptawk_be.Text.{Text, same_text}
use shiptawk_be.Weekly.Policy.{CommandError, ActionStatus}
use shiptawk_be.Weekly.Store.{
  Store, PlanAction, PreparedAsset, AssetKind, ApprovalStatus, Operation, is_approval, get_action,
  get_exact_asset,
}
use shiptawk_be.Weekly.Commands.{Command, record_command, write_product_event}
use shiptawk_be.Weekly.Commands.Revise.{
  is_asset, or_else, latest_asset, withdraw_approval, insert_asset, revise_fresh,
}
use shiptawk_be.Weekly.Commands.Revise.Newest.{IsNewest}
use shiptawk_be.Weekly.Commands.Revise.Edited.{
  IsRevision, IsWithdrawn, IsUndecided, revise_fresh-withdraws,
}
use shiptawk_be.Examples.Rows.{tenant, asset, store, command}

abbrev before : Store
before = store ActionStatus.ready ApprovalStatus.approved

abbrev as_given : AssetKind → Text → Option Text
as_given kind t = some t

abbrev new_text : Text
new_text = b'y' ∷ []

abbrev edit : Command
edit = command Operation.patch 20

abbrev store_of : Result CommandError (ℕ × Store) → Store
store_of (ok (i, after)) = after
store_of (err e) = before

abbrev new_id : ℕ
new_id = 21

abbrev edited : Store
edited = store_of (revise_fresh as_given tenant 20 1 21 new_text edit before)

run_fresh : revise_fresh as_given tenant 20 1 21 new_text edit before ≡ ok (21, edited)
unfolding revise_fresh get_exact_asset latest_asset sorted insert_asset write_product_event
    withdraw_approval get_action record_command
run_fresh = refl

root :
    or_else (get_exact_asset tenant 20 1 before) (find (is_asset tenant 20) before.assets)
    ≡ some asset
unfolding get_exact_asset
root = refl

revise_fresh-withdraws_example :
    (latest : PreparedAsset) × (content : Text) × IsNewest tenant asset latest before
    × (as_given AssetKind.blog_brief new_text ≡ some content)
    × (((new : PreparedAsset) × (old : PlanAction) × (changed : PlanAction) × (1 ≡ latest.revision)
          × (new_id ≡ new_id)
          × IsRevision tenant asset latest content 21 new
          × (edited.assets ≡ before.assets ++ new ∷ [])
          × (get_action tenant 10 before ≡ some old)
          × (get_action tenant 10 edited ≡ some changed)
          × IsWithdrawn old changed
          × All (λ r. (is_approval tenant 10 r ≡ false) ⊎ IsUndecided r) edited.approvals)
        ⊎ (1 + 1 ≡ latest.revision)
          × (same_text latest.structured_content content ≡ true)
          × (new_id ≡ latest.id)
          × (edited ≡ record_command edit latest.id before))
revise_fresh-withdraws_example =
    revise_fresh-withdraws as_given tenant 20 1 21 new_text edit before edited 21 asset 10 root refl
      run_fresh
