-- ===== src/Weekly/Covered/Assets.antt =====
-- `revise_asset_use_case`, `reject_asset_use_case` and the latest revisions of approved assets.
use shiptawk_be.Prelude.{
  ℕ, ◌+◌, ◌≡◌, refl, sym, ap, subst, ◌∙◌, String, Option, none, some, [], ◌∷◌, ◌++◌, arith, find,
  update, ◌==◌, ok, Result-cases, Option-cases, Bool-cases, inl, inr,
}
use shiptawk_be.Text.{Text}
use shiptawk_be.Weekly.Store.{
  Tenant, Store, PreparedAsset, AssetKind, is_action, get_action, get_exact_asset,
}
use shiptawk_be.Weekly.Frames.{write_product_event-Keeps}
use shiptawk_be.Weekly.Commands.{Command, command_replay, record_command}
use shiptawk_be.Weekly.Commands.Reject.{
  reject_action, reject_of, rejected_event, reject_asset_use_case,
}
use shiptawk_be.Weekly.Commands.Revise.{
  is_asset, or_else, latest_asset, withdraw_approval, insert_asset, next_revision, edited_event,
  revise_latest, revise_fresh, revise_asset_use_case,
}
use shiptawk_be.Weekly.Commands.Revise.Withdraws.{insert_asset-ok, withdraw_approval-ok}
use shiptawk_be.Weekly.Covered.{Covers, IsCovered, update-CoversRow}
use shiptawk_be.Weekly.Covered.Editing.{withdrawn_rows, revised-CoversRow}

-- What withdrawing the approval of an owner writes.
withdraw_approval-rows :
    (t : Tenant) (owner : Option ℕ) (s after : Store)
    → withdraw_approval t owner s ≡ ok after
    → (after.assets ≡ s.assets) × (after.actions ≡ withdrawn_rows t owner s.actions)
unfolding withdraw_approval
withdraw_approval-rows t none s after h = (ground arith, ground arith)
withdraw_approval-rows t (some i) s after h =
    let (a, there, changed) = withdraw_approval-ok t i s after h in
    (ap (λ x. x.assets) (sym changed), ap (λ x. x.actions) (sym changed))

module _ (validated : AssetKind → Text → Option Text) (t : Tenant) (asset_id revision new_id : ℕ)
    (submitted : Text) (c : Command) where
  revise_latest-IsCovered :
      (root latest : PreparedAsset) (content : Text) (s after : Store) (i : ℕ)
      → IsCovered s
      → revise_latest validated t asset_id revision new_id submitted c root latest content s
        ≡ ok (i, after)
      → IsCovered after
  unfolding revise_latest record_command
  revise_latest-IsCovered root latest content s after i covered h =
      let new = next_revision validated t asset_id revision new_id submitted root latest content in
      elim (Result-cases (insert_asset new s)) [
        | inr (e, refused) ↦ absurd (ground arith)
        | inl (inserted, added) ↦
            elim (Result-cases (
              edited_event validated t asset_id revision new_id submitted (latest.revision + 1)
                inserted)) [
                  | inr (e, refused) ↦ absurd (ground arith)
                  | inl (noted, event) ↦
                      elim (Result-cases (withdraw_approval t root.action_id noted)) [
                        | inr (e, refused) ↦ absurd (ground arith)
                        | inl (withdrawn, done) ↦
                            let recorded : record_command c new_id withdrawn ≡ after =
                              ground arith in
                            let row = insert_asset-ok new s inserted added in
                            let kept = write_product_event-Keeps _ inserted event in
                            let (same_assets, rows) =
                              withdraw_approval-rows t root.action_id noted withdrawn done in
                            let assets : withdrawn.assets ≡ s.assets ++ new ∷ [] =
                              same_assets ∙ kept.assets ∙ ap (λ x. x.assets) (sym row) in
                            let noted_actions : noted.actions ≡ s.actions =
                              kept.actions ∙ ap (λ x. x.actions) (sym row) in
                            let actions : withdrawn.actions
                                ≡ withdrawn_rows t root.action_id s.actions =
                              rows ∙ ap (withdrawn_rows t root.action_id) noted_actions in
                            subst IsCovered recorded (
                              subst (λ xs. Covers xs withdrawn.actions) (sym assets)
                                (subst (Covers (s.assets ++ new ∷ [])) (sym actions)
                                  (revised-CoversRow t new s.assets s.actions refl refl covered)))
                      ]
                ]
      ]

  revise_fresh-IsCovered :
      (s after : Store) (i : ℕ)
      → IsCovered s
      → revise_fresh validated t asset_id revision new_id submitted c s ≡ ok (i, after)
      → IsCovered after
  unfolding revise_fresh record_command
  revise_fresh-IsCovered s after i covered h =
      elim (Option-cases
        (or_else (get_exact_asset t asset_id revision s) (find (is_asset t asset_id) s.assets))) [
          | inl gone ↦ absurd (ground arith)
          | inr (root, there) ↦ elim (Option-cases (validated root.kind submitted)) [
            | inl refused ↦ absurd (ground arith)
            | inr (content, valid) ↦ elim (Option-cases (latest_asset t root s)) [
              | inl gone ↦ absurd (ground arith)
              | inr (latest, newest) ↦ elim (Bool-cases (revision == latest.revision)) [
                | inl current ↦
                    revise_latest-IsCovered root latest content s after i covered (ground arith)
                | inr stale ↦
                    let recorded : record_command c latest.id s ≡ after = ground arith in
                    subst IsCovered recorded covered
              ]
            ]
          ]
        ]

  pub revise-IsCovered :
      (s after : Store) (i : ℕ)
      → IsCovered s
      → revise_asset_use_case validated t asset_id revision new_id submitted c s ≡ ok (i, after)
      → IsCovered after
  unfolding revise_asset_use_case
  revise-IsCovered s after i covered h = elim (Result-cases (command_replay c s)) [
    | inr (e, refused) ↦ absurd (ground arith)
    | inl (none, unseen) ↦ revise_fresh-IsCovered s after i covered (ground arith)
    | inl (some j, answered) ↦ let same : s ≡ after = ground arith in subst IsCovered same covered
  ]

module _ (t : Tenant) (asset_id revision actor now : ℕ) (reason : Option String) (c : Command) where
  reject_of-rows :
      (x : PreparedAsset) (i : ℕ) (s after : Store)
      → reject_of t asset_id revision actor now reason x (some i) s ≡ ok after
      → (after.assets ≡ s.assets) × (after.actions ≡ update (is_action t i) reject_action s.actions)
  reject_of-rows x i s after h = elim (Option-cases (get_action t i s)) [
    | inl gone ↦ absurd (ground arith)
    | inr (a, there) ↦ (ground arith, ground arith)
  ]

  reject_of-Covers :
      (x : PreparedAsset) (owner : Option ℕ) (s after : Store)
      → reject_of t asset_id revision actor now reason x owner s ≡ ok after
      → IsCovered s
      → Covers after.assets after.actions
  reject_of-Covers x none s after h covered = absurd (ground arith)
  reject_of-Covers x (some i) s after h covered =
      let (assets, actions) = reject_of-rows x i s after h in
      subst (λ xs. Covers xs after.actions) (sym assets)
        (subst (Covers s.assets) (sym actions) (
          update-CoversRow t i reject_action (λ u k y. refl) s.assets s.actions
            (λ a found before. tt) covered))

  pub reject-IsCovered :
      (s after : Store) (i : ℕ)
      → IsCovered s
      → reject_asset_use_case t asset_id revision actor now reason c s ≡ ok (i, after)
      → IsCovered after
  unfolding reject_asset_use_case record_command
  reject-IsCovered s after i covered h = elim (Result-cases (command_replay c s)) [
    | inr (e, refused) ↦ absurd (ground arith)
    | inl (some j, answered) ↦ let same : s ≡ after = ground arith in subst IsCovered same covered
    | inl (none, unseen) ↦ elim (Option-cases (get_exact_asset t asset_id revision s)) [
      | inl gone ↦ absurd (ground arith)
      | inr (x, there) ↦
          elim (Result-cases (reject_of t asset_id revision actor now reason x x.action_id s)) [
            | inr (e, refused) ↦ absurd (ground arith)
            | inl (mid, rejected) ↦
                elim (Result-cases (rejected_event t asset_id revision actor now reason mid)) [
                  | inr (e, refused) ↦ absurd (ground arith)
                  | inl (noted, event) ↦
                      let recorded : record_command c x.id noted ≡ after = ground arith in
                      let kept = write_product_event-Keeps _ mid event in
                      let mid_covered = reject_of-Covers x x.action_id s mid rejected covered in
                      subst IsCovered recorded (
                        subst (λ xs. Covers xs noted.actions) (sym kept.assets)
                          (subst (Covers mid.assets) (sym kept.actions) mid_covered))
                ]
          ]
    ]
  ]
