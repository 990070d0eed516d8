-- ===== src/Weekly/Commands/Move/Rest.antt =====
-- What a move leaves alone, and the rewrites that it is made of.
use shiptawk_be.Prelude.{
  ℕ, ◌≡◌, refl, ap, ◌∙◌, ◌⊎◌, String, Option, none, some, arith, update, ok, Result-cases,
  Option-cases, Bool-cases, inl, inr,
}
use shiptawk_be.Weekly.Policy.{ActionStatus, transition_action, same_action}
use shiptawk_be.Weekly.Store.{Tenant, Store, PlanAction, EventName, is_action, get_action}
use shiptawk_be.Weekly.Frames.{write_product_event-Keeps}
use shiptawk_be.Weekly.Commands.{Command, record_command}
use shiptawk_be.Weekly.Commands.Replay.{get_action-id}
use shiptawk_be.Weekly.Commands.Move.{
  Move, check_start, moved_row, after_dismissal, note_event, note_move, event_name, add_window,
  schedule_measurement, measure_completed, transition_canonical_action, move_fresh,
}
use shiptawk_be.Weekly.Commands.Move.Legal.{
  Redated, transition_canonical_action-ok, note_event-actions, measure_completed-Redated,
}

-- The tables that no move writes before its receipt.
pub record Rest (s after : Store) : Type 0 where
  pub receipts : after.receipts ≡ s.receipts
  pub assets : after.assets ≡ s.assets

Rest-trans : {a b c : Store} → Rest a b → Rest b c → Rest a c
Rest-trans h k = record { receipts = k.receipts ∙ h.receipts; assets = k.assets ∙ h.assets }

Rest-same : (s : Store) → Rest s s
Rest-same s = record { receipts = refl; assets = refl }

after_dismissal-Rest : (m : Move) (a : PlanAction) (s : Store) → Rest s (after_dismissal m a s)
after_dismissal-Rest m a s = record { receipts = ground arith; assets = ground arith }

transition-Rest :
    (m : Move) (s after : Store) (row : PlanAction)
    → transition_canonical_action m s ≡ ok (row, after)
    → Rest s after
unfolding transition_canonical_action
transition-Rest m s after row h = elim (Option-cases (get_action m.tenant m.action_id s)) [
  | inl gone ↦ absurd (ground arith)
  | inr (a, there) ↦ elim (Result-cases (check_start m a s)) [
    | inr (e, refused) ↦ absurd (ground arith)
    | inl (u, checked) ↦ elim (Result-cases (transition_action a.status m.target)) [
      | inr (e, refused) ↦ absurd (ground arith)
      | inl (status, moved) ↦
          let updated = record s {
            actions = update (is_action m.tenant m.action_id) (moved_row m status) s.actions;
          } in
          let rest = after_dismissal-Rest m a updated in
          record { receipts = ground (arith, rest.receipts); assets = ground (arith, rest.assets) }
    ]
  ]
]

note-Rest :
    (name : Option EventName) (m : Move) (s : Store) {after : Store}
    → note_event name m s ≡ ok after
    → Rest s after
note-Rest none m s {after} h = record { receipts = ground arith; assets = ground arith }
note-Rest (some name) m s h =
    let kept = write_product_event-Keeps _ s h in
    record { receipts = kept.receipts; assets = kept.assets }

add_window-Rest :
    (id_text : ℕ → String) (measurement_key : String → String) (t : Tenant)
    (action_id id event_id starts due now : ℕ) (key : String) (s : Store) {after : Store}
    → add_window id_text measurement_key t action_id id event_id starts due now key s ≡ ok after
    → Rest s after
add_window-Rest id_text measurement_key t action_id id event_id starts due now key s {after} h =
    record { receipts = ground arith; assets = ground arith }

schedule-receipts :
    (id_text : ℕ → String) (measurement_key : String → String) (t : Tenant) (action_id : ℕ)
    (key : String) (starts now id event_id : ℕ) (s : Store) {after : Store}
    → schedule_measurement id_text measurement_key t action_id key starts now id event_id s
      ≡ ok after
    → after.receipts ≡ s.receipts
unfolding schedule_measurement
schedule-receipts id_text measurement_key t action_id key starts now id event_id s {after} h =
    ground arith

schedule-assets :
    (id_text : ℕ → String) (measurement_key : String → String) (t : Tenant) (action_id : ℕ)
    (key : String) (starts now id event_id : ℕ) (s : Store) {after : Store}
    → schedule_measurement id_text measurement_key t action_id key starts now id event_id s
      ≡ ok after
    → after.assets ≡ s.assets
unfolding schedule_measurement
schedule-assets id_text measurement_key t action_id key starts now id event_id s {after} h =
    ground arith

measure-Rest :
    (id_text : ℕ → String) (measurement_key : String → String) (m : Move) (target : ActionStatus)
    (c : Command) (id event_id : ℕ) (a : PlanAction) (s : Store) {after : Store}
    → measure_completed id_text measurement_key (record m { target = target }) c id event_id a s
      ≡ ok after
    → Rest s after
measure-Rest id_text measurement_key m ActionStatus.completed c id event_id a s h = record {
  receipts =
      schedule-receipts id_text measurement_key m.tenant m.action_id _ m.now m.now id event_id s h;
  assets =
      schedule-assets id_text measurement_key m.tenant m.action_id _ m.now m.now id event_id s h;
}
measure-Rest id_text measurement_key m target c id event_id a s {after} h = record {
  receipts = ground arith;
  assets = ground arith;
}

moved_row-id :
    (m : Move) (status : ActionStatus) (a : PlanAction) → (moved_row m status a).id ≡ a.id
moved_row-id m status a = ground arith

-- The actions of a move before its receipt: those of the store, or the moved row and then perhaps
-- its measurement date.
abbrev pub MovedActions : Move → Store → Store → Type 0
MovedActions m s last =
    (last.actions ≡ s.actions)
    ⊎ (dated : Store) × (dated.actions
        ≡ update (is_action m.tenant m.action_id) (moved_row m m.target) s.actions)
      × Redated m dated last

module _ (id_text : ℕ → String) (measurement_key : String → String) (m : Move) (c : Command)
    (id event_id : ℕ) where
  pub move_fresh-ok :
      (s after : Store) (i : ℕ)
      → move_fresh id_text measurement_key m c id event_id s ≡ ok (i, after)
      → (i ≡ m.action_id)
        × ((last : Store) × Rest s last × MovedActions m s last × (record_command c i last ≡ after))
  unfolding move_fresh
  move_fresh-ok s after i h = elim (Option-cases (get_action m.tenant m.action_id s)) [
    | inl gone ↦ absurd (ground arith)
    | inr (a, there) ↦
        let own = get_action-id m.tenant m.action_id s a there in
        elim (Bool-cases (same_action a.status m.target)) [
          | inl old ↦ (ground arith, (s, Rest-same s, inl refl, ground arith))
          | inr new ↦ elim (Result-cases (transition_canonical_action m s)) [
            | inr (e, refused) ↦ absurd (ground arith)
            | inl ((row, mid), moved) ↦
                let (b, there', legal, from, changed) =
                  transition_canonical_action-ok m s mid row moved in
                let own_id : b.id ≡ m.action_id = get_action-id m.tenant m.action_id s b there' in
                elim (Result-cases (note_move m mid)) [
                  | inr (e, refused) ↦ absurd (ground arith)
                  | inl (noted, event) ↦
                      elim (Result-cases
                        (measure_completed id_text measurement_key m c id event_id row noted)) [
                          | inr (e, refused) ↦ absurd (ground arith)
                          | inl (last, measured) ↦
                              let result : i ≡ row.id = ground arith in
                              (
                                result ∙ ap (λ x. x.id) from ∙ moved_row-id m m.target b ∙ own_id,
                                (
                                  last,
                                  Rest-trans
                                      (Rest-trans (transition-Rest m s mid row moved)
                                        (note-Rest (event_name m.target) m mid event))
                                      (measure-Rest id_text measurement_key m m.target c id event_id
                                        row noted measured),
                                  inr (
                                    noted,
                                    note_event-actions (event_name m.target) m mid event ∙ changed,
                                    measure_completed-Redated id_text measurement_key m m.target c
                                        id event_id row noted measured,
                                  ),
                                  ground arith,
                                ),
                              )
                        ]
                ]
          ]
        ]
  ]

  pub move_fresh-recorded :
      (s after : Store) (i : ℕ)
      → move_fresh id_text measurement_key m c id event_id s ≡ ok (i, after)
      → (i ≡ m.action_id) × ((noted : Store) × Rest s noted × (record_command c i noted ≡ after))
  move_fresh-recorded s after i h =
      let (named, (last, rest, _, recorded)) = move_fresh-ok s after i h in
      (named, (last, rest, recorded))
