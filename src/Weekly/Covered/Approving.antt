-- ===== src/Weekly/Covered/Approving.antt =====
-- `approve_action_revision_use_case` and the latest revisions of approved assets.
use shiptawk_be.Prelude.{
  ℕ, ◌≡◌, refl, ap, subst, ◌∙◌, Option, none, some, arith, find-holds, ok, Result-cases,
  Option-cases, inl, inr,
}
use shiptawk_be.Text.{Text}
use shiptawk_be.Weekly.Policy.{ActionStatus}
use shiptawk_be.Weekly.Store.{
  Tenant, Store, PlanAction, is_exact_asset, get_action, get_exact_asset, latest_revision,
}
use shiptawk_be.Weekly.Commands.{Command, command_replay, record_command}
use shiptawk_be.Weekly.Commands.Approve.{
  approve_action, check_revision, approve_fresh, approve_action_revision_use_case,
}
use shiptawk_be.Weekly.Commands.Approve.Exact.{approve_fresh-ok, check_revision-ok}
use shiptawk_be.Weekly.Covered.{IsCurrent, IsCovered, update-CoversRow}

-- The checks in front of an approval are what it promises.
check_revision-IsCurrent :
    (t : Tenant) (action_id asset_id revision : ℕ) (s : Store) (status : ActionStatus)
    (a : PlanAction)
    → check_revision t action_id asset_id revision s ≡ ok tt
    → IsCurrent t action_id s.assets (approve_action asset_id revision status a)
unfolding get_exact_asset latest_revision
check_revision-IsCurrent t action_id asset_id revision s status a h =
    let (x, asset, owned, latest, _) = check_revision-ok t action_id asset_id revision s h in
    let hit = find-holds (is_exact_asset t asset_id revision) s.assets asset in
    let same_id : asset_id ≡ x.id = ground arith in
    let same_revision : revision ≡ x.revision = ground arith in
    record {
      asset = x;
      id = ap some same_id;
      revision = ap some same_revision;
      there = rw (← same_id, ← same_revision) asset;
      owner = owned;
      latest = latest ∙ ap some same_revision;
    }

module _ (post_of : Text → Option Text) (t : Tenant)
    (action_id asset_id revision actor now draft_id : ℕ) (c : Command) where
  approve_fresh-IsCovered :
      (s after : Store) (i : ℕ)
      → IsCovered s
      → approve_fresh post_of t action_id asset_id revision actor now draft_id c s ≡ ok (i, after)
      → IsCovered after
  unfolding record_command
  approve_fresh-IsCovered s after i covered h =
      let (a, there, named, result) =
        approve_fresh-ok post_of t action_id asset_id revision actor now draft_id c s after i h in
      elim result [
        | inl (old, recorded) ↦ subst IsCovered recorded covered
        | inr (checked, moved, (noted, kept, recorded)) ↦ subst IsCovered recorded (λ t' j.
            rw (kept.assets, kept.actions)
              (update-CoversRow t action_id (approve_action asset_id revision ActionStatus.ready)
                (λ t' j x. refl) s.assets s.actions
                (λ x found before.
                  check_revision-IsCurrent t action_id asset_id revision s ActionStatus.ready x
                    checked)
                covered t' j))
      ]

  pub approve-IsCovered :
      (s after : Store) (i : ℕ)
      → IsCovered s
      → approve_action_revision_use_case post_of t action_id asset_id revision actor now draft_id c
          s
        ≡ ok (i, after)
      → IsCovered after
  unfolding approve_action_revision_use_case
  approve-IsCovered s after i covered h = elim (Result-cases (command_replay c s)) [
    | inr (e, refused) ↦ absurd (ground arith)
    | inl (none, unseen) ↦ approve_fresh-IsCovered s after i covered (ground arith)
    | inl (some j, answered) ↦ elim (Option-cases (get_action t j s)) [
      | inl gone ↦ absurd (ground arith)
      | inr (a, there) ↦ let same : s ≡ after = ground arith in subst IsCovered same covered
    ]
  ]
