-- ===== src/Weekly/Commands/Approve/Exact.antt =====
-- `approve_action_revision_use_case`: the action, asset and revision that an approval is for.
use shiptawk_be.Prelude.{
  ℕ, ◌≡◌, refl, ap, ◌∙◌, ◌⊎◌, true, ◌&&◌, not, Option, some, arith, find, find-update-some,
  find-holds, any, any-of_find, same_id_iff, update, is_id, same_id, ok, if◌then◌else◌,
  Option-cases, Result-cases, subst, Bool-cases, inl, inr,
}
use shiptawk_be.Text.{Text}
use shiptawk_be.Weekly.Policy.{ActionStatus, transition_action}
use shiptawk_be.Weekly.Store.{
  Tenant, Store, PlanAction, PreparedAsset, EventName, ProductEvent, is_action, is_review,
  latest_revision, get_action, get_exact_asset,
}
use shiptawk_be.Weekly.Commands.{
  Command, is_block, record_command, write_product_event, project_x_asset_to_draft,
}
use shiptawk_be.Weekly.Commands.Approve.{
  approve_action, approve_request, already_approved, is_open_approval, approve_exact_revision,
  check_revision, approve_fresh,
}
use shiptawk_be.Weekly.Lifecycle.{transition_action-target}
use shiptawk_be.Weekly.Frames.{Keeps, Keeps-trans, write_product_event-Keeps, project-Keeps}

module _ (post_of : Text → Option Text) (t : Tenant)
    (action_id asset_id revision actor now draft_id : ℕ) where
  -- The store that an approval hands to the projection of drafts.
  abbrev granted : ActionStatus → Store → Store
  granted status s = record s {
    approvals =
        update (is_open_approval t action_id) (approve_request asset_id revision actor now)
          s.approvals;
    actions = update (is_action t action_id) (approve_action asset_id revision status) s.actions;
  }

  approve_exact_revision-ok :
      (s after : Store)
      → approve_exact_revision post_of t action_id asset_id revision actor now draft_id s ≡ ok after
      → (a : PlanAction) × (get_action t action_id s ≡ some a)
        × (transition_action a.status ActionStatus.ready ≡ ok ActionStatus.ready)
        × Keeps (granted ActionStatus.ready s) after
  unfolding approve_exact_revision
  approve_exact_revision-ok s after h = elim (Option-cases (get_action t action_id s)) [
    | inl gone ↦ absurd (ground arith)
    | inr (a, there) ↦ elim (Result-cases (transition_action a.status ActionStatus.ready)) [
      | inr (e, refused) ↦ absurd (ground arith)
      | inl (u, moved) ↦
          let target : u ≡ ActionStatus.ready =
            transition_action-target a.status ActionStatus.ready moved in
          let projected : project_x_asset_to_draft post_of t asset_id revision now draft_id
                (granted u s)
              ≡ ok after =
            ground arith in
          (
            a,
            there,
            rw moved (ap ok target),
            subst (λ v. Keeps (granted v s) after) target
                (project-Keeps post_of t asset_id revision now draft_id (granted u s) projected),
          )
    ]
  ]

  abbrev asset_event : ProductEvent
  asset_event = record {
    workspace_id = t.workspace;
    product_id = t.product;
    actor_id = some actor;
    event_name = EventName.asset_approved;
    resource_id = asset_id;
    resource_revision = some revision;
  }

  -- A fresh approval returns the action it was given, and either the action already had this approval
  -- or the checks passed and an accepted transition made it ready.
  pub approve_fresh-ok :
      (command : Command) (s after : Store) (i : ℕ)
      → approve_fresh post_of t action_id asset_id revision actor now draft_id command s
        ≡ ok (i, after)
      → (a : PlanAction) × (get_action t action_id s ≡ some a)
        × (i ≡ a.id)
        × ((already_approved asset_id revision a ≡ true) × (record_command command a.id s ≡ after)
            ⊎ (check_revision t action_id asset_id revision s ≡ ok tt)
              × (transition_action a.status ActionStatus.ready ≡ ok ActionStatus.ready)
              × ((noted : Store) × Keeps (granted ActionStatus.ready s) noted
                  × (record_command command a.id noted ≡ after)))
  unfolding approve_fresh
  approve_fresh-ok command s after i h = elim (Option-cases (get_action t action_id s)) [
    | inl gone ↦ absurd (ground arith)
    | inr (a, there) ↦ elim (Bool-cases (already_approved asset_id revision a)) [
      | inl old ↦ (a, there, ground arith, inl (old, ground arith))
      | inr new ↦ elim (Result-cases (check_revision t action_id asset_id revision s)) [
        | inr (e, refused) ↦ absurd (ground arith)
        | inl (u, checked) ↦
            elim (Result-cases
              (approve_exact_revision post_of t action_id asset_id revision actor now draft_id s)) [
                | inr (e, refused) ↦ absurd (ground arith)
                | inl (mid, approved) ↦
                    let (b, there', moved, kept) = approve_exact_revision-ok s mid approved in
                    elim (Result-cases (write_product_event asset_event mid)) [
                      | inr (e, refused) ↦ absurd (ground arith)
                      | inl (noted, event) ↦ (
                        a,
                        there,
                        ground arith,
                        inr (
                          checked,
                          (let same : b ≡ a = ground arith in
                              subst
                                (λ x.
                                  transition_action x.status ActionStatus.ready
                                  ≡ ok ActionStatus.ready)
                                same moved),
                          (
                            noted,
                            Keeps-trans kept (write_product_event-Keeps asset_event mid event),
                            ground arith,
                          ),
                        ),
                      )
                    ]
              ]
      ]
    ]
  ]

  -- The action's row in the store that the approval leaves.
  pub granted-approved :
      (s noted after : Store) (command : Command) (a : PlanAction)
      → get_action t action_id s ≡ some a
      → Keeps (granted ActionStatus.ready s) noted
      → record_command command a.id noted ≡ after
      → get_action t action_id after ≡ some (approve_action asset_id revision ActionStatus.ready a)
  unfolding get_action record_command
  granted-approved s noted after command a there kept recorded =
      let row =
        find-update-some (is_action t action_id) (is_action t action_id)
          (approve_action asset_id revision ActionStatus.ready) (λ x. refl) s.actions a there in
      let hit = find-holds (is_action t action_id) s.actions there in
      let picked : find (is_action t action_id) (granted ActionStatus.ready s).actions
          ≡ some (approve_action asset_id revision ActionStatus.ready a) =
        row
        ∙ ap (λ b. some (if b then approve_action asset_id revision ActionStatus.ready a else a))
            hit in
      rw (← recorded, kept.actions) picked

pub recorded_action :
    (command : Command) (i : ℕ) (s after : Store) (t : Tenant) (action_id : ℕ) (a : PlanAction)
    → get_action t action_id s ≡ some a
    → record_command command i s ≡ after
    → get_action t action_id after ≡ some a
unfolding get_action record_command
recorded_action command i s after t action_id a there recorded = rw (← recorded) there

pub check_revision-ok :
    (t : Tenant) (action_id asset_id revision : ℕ) (s : Store)
    → check_revision t action_id asset_id revision s ≡ ok tt
    → (x : PreparedAsset) × (get_exact_asset t asset_id revision s ≡ some x)
      × (x.action_id ≡ some action_id)
      × (latest_revision t x.recommendation_id (some action_id) s ≡ some revision)
      × (any (λ v. is_review t asset_id revision v && not (is_block v.final_outcome)) s.reviews
          ≡ true)
unfolding check_revision
check_revision-ok t action_id asset_id revision s h =
    elim (Option-cases (get_exact_asset t asset_id revision s)) [
      | inl gone ↦ absurd (ground arith)
      | inr (x, there) ↦ elim (Option-cases (find (is_review t asset_id revision) s.reviews)) [
        | inl gone ↦ absurd (ground arith)
        | inr (v, reviewed) ↦
            let owned : is_id x.action_id action_id ≡ true = ground arith in
            let latest : same_id (latest_revision t x.recommendation_id (some action_id) s)
                  (some revision)
                ≡ true =
              ground arith in
            let open_review : not (is_block v.final_outcome) ≡ true = ground arith in
            (
              x,
              there,
              ground arith,
              (same_id_iff _ _).0 latest,
              any-of_find (is_review t asset_id revision) (λ w. not (is_block w.final_outcome))
                  s.reviews v reviewed open_review,
            )
      ]
    ]

-- An approval command that is no replay and returns leaves its action approved for exactly the asset
-- and revision that it names. Unless the action had that approval before, the asset is the action's,
-- the revision is the latest of the asset's siblings, a risk review of it does not block, the
-- action's move to `ready` was legal, and the action is then `ready`.
pub approve_fresh-exact :
    (post_of : Text → Option Text) (t : Tenant) (action_id asset_id revision actor now draft_id : ℕ)
    (command : Command) (s after : Store) (i : ℕ)
    → approve_fresh post_of t action_id asset_id revision actor now draft_id command s
      ≡ ok (i, after)
    → (old new : PlanAction) × (get_action t action_id s ≡ some old)
      × (get_action t action_id after ≡ some new)
      × (already_approved asset_id revision new ≡ true)
      × ((already_approved asset_id revision old ≡ true)
          ⊎ (x : PreparedAsset) × (get_exact_asset t asset_id revision s ≡ some x)
            × (x.action_id ≡ some action_id)
            × (latest_revision t x.recommendation_id (some action_id) s ≡ some revision)
            × (any
                  (λ v. is_review t asset_id revision v && not (is_block v.final_outcome))
                  s.reviews
                ≡ true)
            × (transition_action old.status ActionStatus.ready ≡ ok ActionStatus.ready)
            × (new.status ≡ ActionStatus.ready))
approve_fresh-exact post_of t action_id asset_id revision actor now draft_id command s after i h =
    let (a, there, _, result) =
      approve_fresh-ok post_of t action_id asset_id revision actor now draft_id command s after i
        h in
    elim result [
      | inl (old, recorded) ↦ (
        a,
        a,
        there,
        recorded_action command a.id s after t action_id a there recorded,
        old,
        inl old,
      )
      | inr (checked, moved, (noted, kept, recorded)) ↦
          let (x, asset, owned, latest, reviewed) =
            check_revision-ok t action_id asset_id revision s checked in
          (
            a,
            approve_action asset_id revision ActionStatus.ready a,
            there,
            granted-approved post_of t action_id asset_id revision actor now draft_id s noted after
                command a there kept recorded,
            ground arith,
            inr (x, asset, owned, latest, reviewed, moved, refl),
          )
    ]
