-- ===== src/Weekly/Commands/Replay/Moving.antt =====
-- `transition_action_use_case` on a command that is sent again.
use shiptawk_be.Prelude.{
  ℕ, ◌≡◌, refl, sym, ap, subst, ◌∙◌, false, String, none, some, arith, str_eq, ok, err,
  Result-cases, Option-cases, inl, inr,
}
use shiptawk_be.Weekly.Policy.{CommandError}
use shiptawk_be.Weekly.Store.{Store, PlanAction, get_action}
use shiptawk_be.Weekly.Commands.{Command, command_replay}
use shiptawk_be.Weekly.Commands.Move.{Move, move_fresh, transition_action_use_case}
use shiptawk_be.Weekly.Commands.Move.Legal.{move_fresh-legal}
use shiptawk_be.Weekly.Commands.Move.Rest.{move_fresh-recorded}
use shiptawk_be.Weekly.Commands.Replay.{
  get_action-id, command_replay-record_command, command_replay-conflict,
}

module _ (id_text : ℕ → String) (measurement_key : String → String) (m : Move) (c : Command)
    (id event_id : ℕ) where
  move-answers :
      (s after : Store) (i : ℕ)
      → transition_action_use_case id_text measurement_key m c id event_id s ≡ ok (i, after)
      → (command_replay c after ≡ ok (some i))
        × ((a : PlanAction) × (get_action m.tenant i after ≡ some a) × (a.id ≡ i))
  unfolding transition_action_use_case
  move-answers s after i h = elim (Result-cases (command_replay c s)) [
    | inr (e, refused) ↦ absurd (ground arith)
    | inl (none, unseen) ↦
        let run : move_fresh id_text measurement_key m c id event_id s ≡ ok (i, after) =
          ground arith in
        let (named, (noted, kept, recorded)) =
          move_fresh-recorded id_text measurement_key m c id event_id s after i run in
        let (_, _, _, ((a, there, _), _)) =
          move_fresh-legal id_text measurement_key m c id event_id s after i run in
        let here : get_action m.tenant i after ≡ some a =
          subst (λ j. get_action m.tenant j after ≡ some a) (sym named) there in
        (
          subst (λ x. command_replay c x ≡ ok (some i)) recorded
              (command_replay-record_command c i s noted unseen kept.receipts),
          (a, here, get_action-id m.tenant i after a here),
        )
    | inl (some j, answered) ↦ elim (Option-cases (get_action m.tenant j s)) [
      | inl gone ↦ absurd (ground arith)
      | inr (a, there) ↦
          let own : a.id ≡ j = get_action-id m.tenant j s a there in
          let named : j ≡ i = ground arith in
          let same : s ≡ after = ground arith in
          (
            subst (λ x. command_replay c x ≡ ok (some i)) same
                (answered ∙ ap (λ k. ok (some k)) named),
            (
              a,
              subst (λ x. get_action m.tenant i x ≡ some a) same
                  (subst (λ k. get_action m.tenant k s ≡ some a) named there),
              own ∙ named,
            ),
          )
    ]
  ]

-- A move that has returned, sent again to the store it left, returns the same action and leaves that
-- store, for every fresh identifier. With another payload under the same key it raises the key
-- conflict.
pub move_replays :
    (id_text : ℕ → String) (measurement_key : String → String) (m : Move) (c : Command)
    (id event_id other_id other_event_id : ℕ) (s after : Store) (i : ℕ) (other : String)
    → transition_action_use_case id_text measurement_key m c id event_id s ≡ ok (i, after)
    → str_eq c.fingerprint other ≡ false
    → (transition_action_use_case id_text measurement_key m c other_id other_event_id after
        ≡ ok (i, after))
      × (transition_action_use_case id_text measurement_key m
            (record c { fingerprint = other })
            other_id
            other_event_id
            after
          ≡ err CommandError.key_conflict)
unfolding transition_action_use_case
move_replays id_text measurement_key m c id event_id other_id other_event_id s after i other h
      differs =
    let (answered, (a, there, named)) =
      move-answers id_text measurement_key m c id event_id s after i h in
    let conflict = command_replay-conflict c i after other answered differs in
    (ground arith, rw (transition_action_use_case, conflict) refl)
