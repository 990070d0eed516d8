-- ===== src/Weekly/Commands/Reject/Reopens.antt =====
-- `reject_asset_use_case` and the life cycle of the action of its asset.
use shiptawk_be.Prelude.{
  ℕ, ◌≡◌, refl, ap, ◌∙◌, String, Option, some, arith, find-update-some, find-holds, update, ok,
  Result-cases, Option-cases, inl, inr, if◌then◌else◌,
}
use shiptawk_be.Weekly.Policy.{ActionStatus}
use shiptawk_be.Weekly.Store.{
  Tenant, Store, PlanAction, PreparedAsset, ApprovalStatus, is_action, get_action, get_exact_asset,
}
use shiptawk_be.Weekly.Frames.{write_product_event-Keeps}
use shiptawk_be.Weekly.Commands.{Command, record_command}
use shiptawk_be.Weekly.Commands.Reject.{reject_action, reject_of, rejected_event, reject_fresh}

module _ (t : Tenant) (asset_id revision actor now : ℕ) (reason : Option String) where
  reject_of-ok :
      (x : PreparedAsset) (i : ℕ) (s after : Store)
      → reject_of t asset_id revision actor now reason x (some i) s ≡ ok after
      → (a : PlanAction) × (get_action t i s ≡ some a)
        × (after.actions ≡ update (is_action t i) reject_action s.actions)
  reject_of-ok x i s after h = elim (Option-cases (get_action t i s)) [
    | inl gone ↦ absurd (ground arith)
    | inr (a, there) ↦ (a, there, ground arith)
  ]

-- A rejection that is no replay and returns sends the action of its asset back to `pending`, with the
-- approval rejected, from every status: also from `completed`, `dismissed` and `cancelled`, which the
-- transition table never leaves.
pub reject_fresh-reopens :
    (t : Tenant) (asset_id revision actor now : ℕ) (reason : Option String) (c : Command)
    (s after : Store) (i : ℕ)
    → reject_fresh t asset_id revision actor now reason c s ≡ ok (i, after)
    → (x : PreparedAsset) (action_id : ℕ) → get_exact_asset t asset_id revision s ≡ some x
    → x.action_id ≡ some action_id
    → (old new : PlanAction) × (get_action t action_id s ≡ some old)
      × (get_action t action_id after ≡ some new)
      × (new.status ≡ ActionStatus.pending)
      × (new.approval_status ≡ ApprovalStatus.rejected)
unfolding reject_fresh record_command get_action
reject_fresh-reopens t asset_id revision actor now reason c s after i h x action_id asset owner =
    elim (Result-cases (reject_of t asset_id revision actor now reason x (some action_id) s)) [
      | inr (e, refused) ↦ absurd (ground arith)
      | inl (mid, rejected) ↦
          let (a, there, changed) =
            reject_of-ok t asset_id revision actor now reason x action_id s mid rejected in
          elim (Result-cases (rejected_event t asset_id revision actor now reason mid)) [
            | inr (e, refused) ↦ absurd (ground arith)
            | inl (noted, event) ↦
                let recorded : record_command c x.id noted ≡ after = ground arith in
                let row =
                  find-update-some (is_action t action_id) (is_action t action_id) reject_action
                    (λ y. refl) s.actions a there
                  ∙ ap (λ b. some (if b then reject_action a else a))
                      (find-holds (is_action t action_id) s.actions there) in
                (
                  a,
                  reject_action a,
                  there,
                  rw (← recorded, (write_product_event-Keeps _ mid event).actions, changed) row,
                  refl,
                  refl,
                )
          ]
    ]
