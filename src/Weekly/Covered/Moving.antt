-- ===== src/Weekly/Covered/Moving.antt =====
-- `transition_action_use_case` and the latest revisions of approved assets.
use shiptawk_be.Prelude.{
  ℕ, ◌≡◌, refl, sym, subst, String, none, some, List, arith, ok, Result-cases, Option-cases, inl,
  inr,
}
use shiptawk_be.Weekly.Policy.{ActionStatus}
use shiptawk_be.Weekly.Store.{Store, PlanAction, PreparedAsset, get_action}
use shiptawk_be.Weekly.Commands.{Command, command_replay, record_command}
use shiptawk_be.Weekly.Commands.Move.{Move, moved_row, move_fresh, transition_action_use_case}
use shiptawk_be.Weekly.Commands.Move.Legal.{Redated, moved_row_same}
use shiptawk_be.Weekly.Commands.Move.Rest.{MovedActions, move_fresh-ok}
use shiptawk_be.Weekly.Covered.{
  CoversRow, Covers, IsCovered, update-CoversRow, same_approval-CoversRow,
}

moved_row-CoversRow :
    (m : Move) (status : ActionStatus) (assets : List PreparedAsset) (a : PlanAction)
    → CoversRow m.tenant m.action_id assets (some a)
    → CoversRow m.tenant m.action_id assets (some (moved_row m status a))
moved_row-CoversRow m status assets a h =
    same_approval-CoversRow m.tenant m.action_id assets a (moved_row m status a) (ground arith)
      (ground arith) (ground arith) h

Redated-Covers :
    (m : Move) (assets : List PreparedAsset) (s after : Store)
    → Redated m s after
    → Covers assets s.actions
    → Covers assets after.actions
Redated-Covers m assets s after (inl same) h = subst (Covers assets) (sym same) h
Redated-Covers m assets s after (inr (due, changed)) h = subst (Covers assets) (sym changed) (
    update-CoversRow m.tenant m.action_id (λ x. record x { measurement_due_at = some due })
      (λ t j x. refl) assets s.actions
      (λ a found before.
        same_approval-CoversRow m.tenant m.action_id assets a
          (record a { measurement_due_at = some due }) refl refl refl before)
      h)

MovedActions-Covers :
    (m : Move) (assets : List PreparedAsset) (s last : Store)
    → MovedActions m s last
    → Covers assets s.actions
    → Covers assets last.actions
MovedActions-Covers m assets s last (inl same) h = subst (Covers assets) (sym same) h
MovedActions-Covers m assets s last (inr (dated, changed, redated)) h =
    Redated-Covers m assets dated last redated (
      subst (Covers assets) (sym changed) (
        update-CoversRow m.tenant m.action_id (moved_row m m.target) (moved_row_same m m.target)
          assets s.actions (λ a found before. moved_row-CoversRow m m.target assets a before) h))

module _ (id_text : ℕ → String) (measurement_key : String → String) (m : Move) (c : Command)
    (id event_id : ℕ) where
  move_fresh-IsCovered :
      (s after : Store) (i : ℕ)
      → IsCovered s
      → move_fresh id_text measurement_key m c id event_id s ≡ ok (i, after)
      → IsCovered after
  unfolding record_command
  move_fresh-IsCovered s after i covered h =
      let (_, (last, rest, moved, recorded)) =
        move_fresh-ok id_text measurement_key m c id event_id s after i h in
      subst IsCovered recorded (
        subst (λ assets. Covers assets last.actions) (sym rest.assets)
          (MovedActions-Covers m s.assets s last moved covered))

  pub move-IsCovered :
      (s after : Store) (i : ℕ)
      → IsCovered s
      → transition_action_use_case id_text measurement_key m c id event_id s ≡ ok (i, after)
      → IsCovered after
  unfolding transition_action_use_case
  move-IsCovered s after i covered h = elim (Result-cases (command_replay c s)) [
    | inr (e, refused) ↦ absurd (ground arith)
    | inl (none, unseen) ↦ move_fresh-IsCovered s after i covered (ground arith)
    | inl (some j, answered) ↦ elim (Option-cases (get_action m.tenant j s)) [
      | inl gone ↦ absurd (ground arith)
      | inr (a, there) ↦ let same : s ≡ after = ground arith in subst IsCovered same covered
    ]
  ]
