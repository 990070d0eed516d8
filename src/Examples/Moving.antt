-- ===== src/Examples/Moving.antt =====
-- An approved action that is started, completed, and rejected.
use shiptawk_be.Prelude.{ℕ, ◌≡◌, refl, ◌⊎◌, true, String, none, some, Result, ok, err, inl}
use shiptawk_be.Weekly.Policy.{CommandError, ActionStatus, transition_action}
use shiptawk_be.Weekly.Store.{
  Store, PlanAction, ApprovalStatus, Operation, get_action, get_exact_asset,
}
use shiptawk_be.Weekly.Lifecycle.{
  Moves, here, move, Moves-final, trail, visits, completed_was_started,
}
use shiptawk_be.Weekly.Commands.{Command, command_replay, record_command, write_product_event}
use shiptawk_be.Weekly.Commands.Move.{
  Move, transition_canonical_action, schedule_measurement, move_fresh, transition_action_use_case,
}
use shiptawk_be.Weekly.Commands.Move.Legal.{MovedTo, move_fresh-legal}
use shiptawk_be.Weekly.Commands.Reject.{reject_fresh}
use shiptawk_be.Weekly.Commands.Reject.Reopens.{reject_fresh-reopens}
use shiptawk_be.Weekly.Commands.Replay.Moving.{move_replays}
use shiptawk_be.Outbox.{enqueue_outbox_event}
use shiptawk_be.Examples.Rows.{tenant, asset, store, command}

abbrev before : Store
before = store ActionStatus.executing ApprovalStatus.approved

abbrev completion : Move
completion = record {
  tenant = tenant;
  action_id = 10;
  target = ActionStatus.completed;
  actor = 5;
  reason = none;
  comment = none;
  now = 100;
}

abbrev id_text : ℕ → String
id_text i = "id"

abbrev measurement_key : String → String
measurement_key k = "measurement"

abbrev complete_command : Command
complete_command = command (Operation.move_to ActionStatus.completed) 10

abbrev store_of : Result CommandError (ℕ × Store) → Store
store_of (ok (i, after)) = after
store_of (err e) = before

abbrev completed : Store
completed =
    store_of
      (transition_action_use_case id_text measurement_key completion complete_command 50 60 before)

run_fresh :
    move_fresh id_text measurement_key completion complete_command 50 60 before ≡ ok (10, completed)
unfolding transition_action_use_case command_replay get_action transition_canonical_action
    transition_action write_product_event schedule_measurement record_command enqueue_outbox_event
run_fresh = refl

run_use_case :
    transition_action_use_case id_text measurement_key completion complete_command 50 60 before
    ≡ ok (10, completed)
unfolding transition_action_use_case command_replay get_action transition_canonical_action
    transition_action write_product_event schedule_measurement record_command enqueue_outbox_event
run_use_case = refl

move_fresh-legal_example :
    (old : PlanAction) × (get_action tenant 10 before ≡ some old)
    × ((old.status ≡ ActionStatus.completed)
        ⊎ (transition_action old.status ActionStatus.completed ≡ ok ActionStatus.completed))
    × MovedTo completion before completed
move_fresh-legal_example =
    move_fresh-legal id_text measurement_key completion complete_command 50 60 before completed 10
      run_fresh

move_replays_example :
    (transition_action_use_case id_text measurement_key completion complete_command 51 61 completed
      ≡ ok (10, completed))
    × (transition_action_use_case id_text measurement_key completion
          (record complete_command { fingerprint = "other" })
          51
          61
          completed
        ≡ err CommandError.key_conflict)
move_replays_example =
    move_replays id_text measurement_key completion complete_command 50 60 51 61 before completed 10
      "other" run_use_case refl

abbrev rejection : Command
rejection = command Operation.reject 20

abbrev rejected : Store
rejected = store_of (reject_fresh tenant 20 1 5 200 (some "late") rejection completed)

run_reject : reject_fresh tenant 20 1 5 200 (some "late") rejection completed ≡ ok (20, rejected)
unfolding reject_fresh transition_action_use_case command_replay get_action get_exact_asset
    transition_canonical_action transition_action write_product_event schedule_measurement
    record_command enqueue_outbox_event
run_reject = refl

asset_of_completed : get_exact_asset tenant 20 1 completed ≡ some asset
unfolding get_exact_asset transition_action_use_case command_replay get_action
    transition_canonical_action transition_action write_product_event schedule_measurement
    record_command enqueue_outbox_event
asset_of_completed = refl

reject_fresh-reopens_example :
    (old new : PlanAction) × (get_action tenant 10 completed ≡ some old)
    × (get_action tenant 10 rejected ≡ some new)
    × (new.status ≡ ActionStatus.pending)
    × (new.approval_status ≡ ApprovalStatus.rejected)
reject_fresh-reopens_example =
    reject_fresh-reopens tenant 20 1 5 200 (some "late") rejection completed rejected 20 run_reject
      asset 10 asset_of_completed refl

-- pending, ready, executing, completed
abbrev whole_life : Moves ActionStatus.pending ActionStatus.completed
unfolding transition_action
whole_life =
    move ActionStatus.completed
      (move ActionStatus.executing (move ActionStatus.ready here refl) refl) refl

completed_was_started_example :
    (visits ActionStatus.ready (trail whole_life) ≡ true)
    × (visits ActionStatus.executing (trail whole_life) ≡ true)
completed_was_started_example = completed_was_started whole_life

stays : Moves ActionStatus.completed ActionStatus.completed
unfolding transition_action
stays = move ActionStatus.completed here refl

Moves-final_example : ActionStatus.completed ≡ ActionStatus.completed
Moves-final_example = Moves-final (inl refl) stays
