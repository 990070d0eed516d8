-- ===== src/Weekly/Covered/Steps.antt =====
-- The commands on plan actions and assets of weekly_growth_service.py, in any order.
use shiptawk_be.Prelude.{ℕ, ◌≡◌, String, Option, ok}
use shiptawk_be.Text.{Text}
use shiptawk_be.Weekly.Store.{Tenant, Store, AssetKind}
use shiptawk_be.Weekly.Commands.{Command}
use shiptawk_be.Weekly.Commands.Approve.{approve_action_revision_use_case}
use shiptawk_be.Weekly.Commands.Move.{Move, transition_action_use_case}
use shiptawk_be.Weekly.Commands.Reject.{reject_asset_use_case}
use shiptawk_be.Weekly.Commands.Revise.{revise_asset_use_case}
use shiptawk_be.Weekly.Covered.{IsCovered}
use shiptawk_be.Weekly.Covered.Approving.{approve-IsCovered}
use shiptawk_be.Weekly.Covered.Moving.{move-IsCovered}
use shiptawk_be.Weekly.Covered.Assets.{revise-IsCovered, reject-IsCovered}

module _ (post_of : Text → Option Text) (validated : AssetKind → Text → Option Text)
    (id_text : ℕ → String) (measurement_key : String → String) where
  -- One committed command, of any user and any product.
  pub data CommandStep (s : Store) : Store → Type 0 where
    approve :
        (t : Tenant) (action_id asset_id revision actor now draft_id : ℕ) (c : Command) (i : ℕ)
        {after : Store}
        → approve_action_revision_use_case post_of t action_id asset_id revision actor now draft_id
            c s
          ≡ ok (i, after)
        → CommandStep s after
    move :
        (m : Move) (c : Command) (id event_id i : ℕ) {after : Store}
        → transition_action_use_case id_text measurement_key m c id event_id s ≡ ok (i, after)
        → CommandStep s after
    revise :
        (t : Tenant) (asset_id revision new_id : ℕ) (submitted : Text) (c : Command) (i : ℕ)
        {after : Store}
        → revise_asset_use_case validated t asset_id revision new_id submitted c s ≡ ok (i, after)
        → CommandStep s after
    reject :
        (t : Tenant) (asset_id revision actor now : ℕ) (reason : Option String) (c : Command)
        (i : ℕ) {after : Store}
        → reject_asset_use_case t asset_id revision actor now reason c s ≡ ok (i, after)
        → CommandStep s after

  -- A chain of them.
  pub data Commands (s : Store) : Store → Type 0 where
    none_yet : Commands s s
    next : {mid after : Store} → Commands s mid → CommandStep mid after → Commands s after

  step-IsCovered : {s after : Store} → CommandStep s after → IsCovered s → IsCovered after
  step-IsCovered {s} {after} (approve t action_id asset_id revision actor now draft_id c i h)
        covered =
      approve-IsCovered post_of t action_id asset_id revision actor now draft_id c s after i covered
        h
  step-IsCovered {s} {after} (move m c id event_id i h) covered =
      move-IsCovered id_text measurement_key m c id event_id s after i covered h
  step-IsCovered {s} {after} (revise t asset_id revision new_id submitted c i h) covered =
      revise-IsCovered validated t asset_id revision new_id submitted c s after i covered h
  step-IsCovered {s} {after} (reject t asset_id revision actor now reason c i h) covered =
      reject-IsCovered t asset_id revision actor now reason c s after i covered h

  -- Whatever approvals, moves, edits and rejections follow one another, of any users and products: if
  -- at the start each approved action's approved asset is there, belongs to the action and has the
  -- latest revision of its siblings, then so it is after them.
  pub Commands-IsCovered : {s after : Store} → IsCovered s → Commands s after → IsCovered after
  Commands-IsCovered covered none_yet = covered
  Commands-IsCovered covered (next steps step) =
      step-IsCovered step (Commands-IsCovered covered steps)
