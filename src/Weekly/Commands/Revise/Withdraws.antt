-- ===== src/Weekly/Commands/Revise/Withdraws.antt =====
-- `revise_asset_use_case` and the approval of the action of its asset.
use shiptawk_be.Prelude.{
  ℕ, ◌+◌, ◌≡◌, refl, ap, ◌∙◌, ◌⊎◌, true, Option, some, [], ◌∷◌, ◌++◌, arith, find, find-update-some,
  find-holds, update, ◌==◌, ok, Result-cases, Option-cases, Bool-cases, inl, inr, if◌then◌else◌,
}
use shiptawk_be.Text.{Text, same_text}
use shiptawk_be.Weekly.Store.{
  Tenant, Store, PlanAction, PreparedAsset, AssetKind, is_action, is_approval, get_action,
  get_exact_asset,
}
use shiptawk_be.Weekly.Frames.{write_product_event-Keeps}
use shiptawk_be.Weekly.Commands.{Command, record_command}
use shiptawk_be.Weekly.Commands.Revise.{
  is_asset, or_else, latest_asset, withdraw_action, withdraw_request, withdraw_approval,
  insert_asset, next_revision, edited_event, revise_latest, revise_stale, revise_fresh,
}

pub insert_asset-ok :
    (new : PreparedAsset) (s after : Store)
    → insert_asset new s ≡ ok after
    → record s { assets = s.assets ++ new ∷ [] } ≡ after
unfolding insert_asset
insert_asset-ok new s after h = ground arith

pub withdraw_approval-ok :
    (t : Tenant) (i : ℕ) (s after : Store)
    → withdraw_approval t (some i) s ≡ ok after
    → (a : PlanAction) × (get_action t i s ≡ some a)
      × (record s {
        actions = update (is_action t i) withdraw_action s.actions;
        approvals = update (is_approval t i) withdraw_request s.approvals;
      }
          ≡ after)
unfolding withdraw_approval
withdraw_approval-ok t i s after h = elim (Option-cases (get_action t i s)) [
  | inl gone ↦ absurd (ground arith)
  | inr (a, there) ↦ (a, there, ground arith)
]

withdrawn_row :
    (t : Tenant) (i : ℕ) (s : Store) (a : PlanAction)
    → get_action t i s ≡ some a
    → find (is_action t i) (update (is_action t i) withdraw_action s.actions)
      ≡ some (withdraw_action a)
unfolding get_action
withdrawn_row t i s a there =
    find-update-some (is_action t i) (is_action t i) withdraw_action (λ y. refl) s.actions a there
    ∙ ap (λ b. some (if b then withdraw_action a else a))
        (find-holds (is_action t i) s.actions there)

module _ (validated : AssetKind → Text → Option Text) (t : Tenant) (asset_id revision new_id : ℕ)
    (submitted : Text) where
  revise_latest-withdraws :
      (c : Command) (root latest : PreparedAsset) (content : Text) (s after : Store)
      (i action_id : ℕ)
      → root.action_id ≡ some action_id
      → revise_latest validated t asset_id revision new_id submitted c root latest content s
        ≡ ok (i, after)
      → (old : PlanAction) × (i ≡ new_id)
        × (get_action t action_id s ≡ some old)
        × (get_action t action_id after ≡ some (withdraw_action old))
        × (after.assets
            ≡ s.assets
              ++ next_revision validated t asset_id revision new_id submitted root latest content
                ∷ [])
        × (after.approvals ≡ update (is_approval t action_id) withdraw_request s.approvals)
  unfolding revise_latest record_command get_action
  revise_latest-withdraws c root latest content s after i action_id owner h =
      let new = next_revision validated t asset_id revision new_id submitted root latest content in
      elim (Result-cases (insert_asset new s)) [
        | inr (e, refused) ↦ absurd (ground arith)
        | inl (inserted, added) ↦
            elim (Result-cases (
              edited_event validated t asset_id revision new_id submitted (latest.revision + 1)
                inserted)) [
                  | inr (e, refused) ↦ absurd (ground arith)
                  | inl (noted, event) ↦
                      elim (Result-cases (withdraw_approval t (some action_id) noted)) [
                        | inr (e, refused) ↦ absurd (ground arith)
                        | inl (withdrawn, done) ↦
                            let (a, there, changed) =
                              withdraw_approval-ok t action_id noted withdrawn done in
                            let row = insert_asset-ok new s inserted added in
                            let kept = write_product_event-Keeps _ inserted event in
                            let recorded : record_command c new_id withdrawn ≡ after =
                              ground arith in
                            let before : get_action t action_id s ≡ some a =
                              rw (← there, kept.actions, ← row) refl in
                            (
                              a,
                              ground arith,
                              before,
                              rw (← recorded, ← changed) (withdrawn_row t action_id noted a there),
                              rw (← recorded, ← changed, kept.assets, ← row) refl,
                              rw (← recorded, ← changed, kept.approvals, ← row) refl,
                            )
                      ]
                ]
      ]

-- The two ways in which a revision that is no replay returns, in the words of the code.
pub revise_fresh-ok :
    (validated : AssetKind → Text → Option Text) (t : Tenant) (asset_id revision new_id : ℕ)
    (submitted : Text) (c : Command) (s after : Store) (i : ℕ) (root : PreparedAsset)
    (action_id : ℕ)
    → or_else (get_exact_asset t asset_id revision s) (find (is_asset t asset_id) s.assets)
      ≡ some root
    → root.action_id ≡ some action_id
    → revise_fresh validated t asset_id revision new_id submitted c s ≡ ok (i, after)
    → (latest : PreparedAsset) × (content : Text) × (latest_asset t root s ≡ some latest)
      × (validated root.kind submitted ≡ some content)
      × (((old : PlanAction) × (revision ≡ latest.revision)
            × (i ≡ new_id)
            × (get_action t action_id s ≡ some old)
            × (get_action t action_id after ≡ some (withdraw_action old))
            × (after.assets
                ≡ s.assets
                  ++ next_revision validated t asset_id revision new_id submitted root latest
                      content
                    ∷ [])
            × (after.approvals ≡ update (is_approval t action_id) withdraw_request s.approvals))
          ⊎ (revision + 1 ≡ latest.revision)
            × (same_text latest.structured_content content ≡ true)
            × (i ≡ latest.id)
            × (after ≡ record_command c latest.id s))
unfolding revise_fresh
revise_fresh-ok validated t asset_id revision new_id submitted c s after i root action_id there
      owner h =
    elim (Option-cases (validated root.kind submitted)) [
      | inl refused ↦ absurd (ground arith)
      | inr (content, valid) ↦ elim (Option-cases (latest_asset t root s)) [
        | inl gone ↦ absurd (ground arith)
        | inr (latest, newest) ↦ elim (Bool-cases (revision == latest.revision)) [
          | inl current ↦
              let run : revise_latest validated t asset_id revision new_id submitted c root latest
                    content s
                  ≡ ok (i, after) =
                ground arith in
              let (old, named, before, row, added, requests) =
                revise_latest-withdraws validated t asset_id revision new_id submitted c root latest
                  content s after i action_id owner run in
              (
                latest,
                content,
                newest,
                valid,
                inl (old, ground arith, named, before, row, added, requests),
              )
          | inr stale ↦
              let run : revise_stale validated t asset_id revision new_id submitted c latest content
                    s
                  ≡ ok (i, after) =
                ground arith in
              (
                latest,
                content,
                newest,
                valid,
                inr (ground arith, ground arith, ground arith, ground arith),
              )
        ]
      ]
    ]
