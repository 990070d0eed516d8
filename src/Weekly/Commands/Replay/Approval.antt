-- ===== src/Weekly/Commands/Replay/Approval.antt =====
-- `approve_action_revision_use_case` on a command that is sent again.
use shiptawk_be.Prelude.{
  ℕ, ◌≡◌, refl, sym, ap, subst, ◌∙◌, false, String, Option, none, some, arith, str_eq, ok, err,
  Result-cases, Option-cases, inl, inr,
}
use shiptawk_be.Text.{Text}
use shiptawk_be.Weekly.Policy.{CommandError, ActionStatus}
use shiptawk_be.Weekly.Store.{Tenant, Store, PlanAction, get_action}
use shiptawk_be.Weekly.Commands.{Command, command_replay, record_command}
use shiptawk_be.Weekly.Commands.Approve.{
  approve_action, approve_fresh, approve_action_revision_use_case,
}
use shiptawk_be.Weekly.Commands.Approve.Exact.{approve_fresh-ok, granted-approved, recorded_action}
use shiptawk_be.Weekly.Commands.Replay.{
  get_action-id, command_replay-record_command, command_replay-conflict,
}

module _ (post_of : Text → Option Text) (t : Tenant)
    (action_id asset_id revision actor now draft_id : ℕ) (c : Command) where
  approve_fresh-answers :
      (s after : Store) (i : ℕ)
      → command_replay c s ≡ ok none
      → approve_fresh post_of t action_id asset_id revision actor now draft_id c s ≡ ok (i, after)
      → (command_replay c after ≡ ok (some i))
        × ((a : PlanAction) × (get_action t i after ≡ some a) × (a.id ≡ i))
  approve_fresh-answers s after i unseen h =
      let (a, there, named, result) =
        approve_fresh-ok post_of t action_id asset_id revision actor now draft_id c s after i h in
      let own : a.id ≡ action_id = get_action-id t action_id s a there in
      let here : action_id ≡ i = sym (named ∙ own) in
      elim result [
        | inl (old, recorded) ↦ (
          subst (λ x. command_replay c x ≡ ok (some i)) recorded
              (subst (λ j. command_replay c (record_command c a.id s) ≡ ok (some j)) (sym named)
                (command_replay-record_command c a.id s s unseen refl)),
          (
            a,
            subst (λ j. get_action t j after ≡ some a) here
                (recorded_action c a.id s after t action_id a there recorded),
            sym named,
          ),
        )
        | inr (checked, moved, (noted, kept, recorded)) ↦ (
          subst (λ x. command_replay c x ≡ ok (some i)) recorded
              (subst (λ j. command_replay c (record_command c a.id noted) ≡ ok (some j)) (sym named)
                (command_replay-record_command c a.id s noted unseen kept.receipts)),
          (
            approve_action asset_id revision ActionStatus.ready a,
            subst
                (λ j.
                  get_action t j after
                  ≡ some (approve_action asset_id revision ActionStatus.ready a))
                here
                (granted-approved post_of t action_id asset_id revision actor now draft_id s noted
                  after c a there kept recorded),
            sym named,
          ),
        )
      ]

  approve-answers :
      (s after : Store) (i : ℕ)
      → approve_action_revision_use_case post_of t action_id asset_id revision actor now draft_id c
          s
        ≡ ok (i, after)
      → (command_replay c after ≡ ok (some i))
        × ((a : PlanAction) × (get_action t i after ≡ some a) × (a.id ≡ i))
  unfolding approve_action_revision_use_case
  approve-answers s after i h = elim (Result-cases (command_replay c s)) [
    | inr (e, refused) ↦ absurd (ground arith)
    | inl (none, unseen) ↦
        let run : approve_fresh post_of t action_id asset_id revision actor now draft_id c s
            ≡ ok (i, after) =
          ground arith in
        approve_fresh-answers s after i unseen run
    | inl (some j, answered) ↦ elim (Option-cases (get_action t j s)) [
      | inl gone ↦ absurd (ground arith)
      | inr (a, there) ↦
          let own : a.id ≡ j = get_action-id t j s a there in
          let named : j ≡ i = ground arith in
          let same : s ≡ after = ground arith in
          (
            subst (λ x. command_replay c x ≡ ok (some i)) same
                (answered ∙ ap (λ k. ok (some k)) named),
            (
              a,
              subst (λ x. get_action t i x ≡ some a) same
                  (subst (λ k. get_action t k s ≡ some a) named there),
              own ∙ named,
            ),
          )
    ]
  ]

-- An approval command that has returned, sent again to the store it left, returns the same action and
-- leaves that store, at every later time and for every fresh draft identifier. With another payload
-- under the same key it raises the key conflict.
pub approve_replays :
    (post_of : Text → Option Text) (t : Tenant)
    (action_id asset_id revision actor now draft_id later other_draft_id : ℕ) (c : Command)
    (s after : Store) (i : ℕ) (other : String)
    → approve_action_revision_use_case post_of t action_id asset_id revision actor now draft_id c s
      ≡ ok (i, after)
    → str_eq c.fingerprint other ≡ false
    → (approve_action_revision_use_case post_of t action_id asset_id revision actor later
          other_draft_id c after
        ≡ ok (i, after))
      × (approve_action_revision_use_case post_of t action_id asset_id revision actor later
            other_draft_id
            (record c { fingerprint = other })
            after
          ≡ err CommandError.key_conflict)
unfolding approve_action_revision_use_case
approve_replays post_of t action_id asset_id revision actor now draft_id later other_draft_id c s
      after i other h differs =
    let (answered, (a, there, named)) =
      approve-answers post_of t action_id asset_id revision actor now draft_id c s after i h in
    let conflict = command_replay-conflict c i after other answered differs in
    (ground arith, rw (approve_action_revision_use_case, conflict) refl)
