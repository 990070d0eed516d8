-- ===== src/Weekly/Commands/Move.antt =====
-- `transition_canonical_action`, `schedule_measurement` and `transition_action_use_case`.
pub mod Legal
pub mod Rest
use shiptawk_be.Prelude.{
  ℕ, ◌+◌, ◌*◌, Bool, true, false, ◌&&◌, String, Option, none, some, List, [], ◌∷◌, ◌++◌, find,
  update, ◌==◌, is_id, same_id, str_eq, Result, ok, err, guard, ◌>>=◌, ◌>>◌, if◌then◌else◌,
}
use shiptawk_be.Idempotency.{DbError, InsertReplayResult}
use shiptawk_be.Outbox.{OutboxEvent, Table, OutboxStatus, enqueue_outbox_event}
use shiptawk_be.Weekly.Policy.{
  CommandError, ActionStatus, transition_action, same_action, assert_exact_asset_revision,
}
use shiptawk_be.Weekly.Store.{
  Tenant, Store, PlanAction, ActionEvent, Recommendation, Decision, MeasurementWindow, EventName,
  ProductEvent, is_action, get_action, get_exact_asset,
}
use shiptawk_be.Weekly.Commands.{
  Command, or_raise, command_replay, record_command, write_product_event,
}

-- The arguments of a move: the actor, the target and the reasons given.
pub record Move : Type 0 where
  pub tenant : Tenant
  pub action_id : ℕ
  pub target : ActionStatus
  pub actor : ℕ
  pub reason : Option String
  pub comment : Option String
  pub now : ℕ

abbrev pub or_zero : Option ℕ → ℕ
or_zero none = 0
or_zero (some r) = r

-- Starting an action that has an approved asset needs that exact revision to be there.
abbrev pub check_start : Move → PlanAction → Store → Result CommandError (Unit {0})
check_start m a s = elim m.target [
  | ActionStatus.executing ↦ elim a.approved_asset_id [
    | none ↦ ok tt
    | some i ↦ do
      asset ←
          or_raise (get_exact_asset m.tenant i (or_zero a.approved_asset_revision) s)
            CommandError.domain_conflict
      assert_exact_asset_revision a.approved_asset_id a.approved_asset_revision asset.id
          asset.revision
  ]
  | _ ↦ ok tt
]

-- The action row after the move.
abbrev pub moved_row : Move → ActionStatus → PlanAction → PlanAction
moved_row m status a = elim m.target [
  | ActionStatus.completed ↦ record a {
    status = status;
    completed_by_actor_id = some m.actor;
    completed_at = some m.now;
  }
  | ActionStatus.dismissed ↦ record a {
    status = status;
    dismissed_by_actor_id = some m.actor;
    dismissed_at = some m.now;
    dismissal_reason = m.reason;
    dismissal_comment = m.comment;
  }
  | _ ↦ record a { status = status }
]

abbrev pub is_recommendation : Tenant → ℕ → Recommendation → Bool
is_recommendation t i r = r.workspace_id == t.workspace && r.product_id == t.product && r.id == i

-- A dismissal withdraws the recommendation's acceptance and adds the decision.
abbrev pub dismiss_recommendation : Move → Option ℕ → Store → Store
dismiss_recommendation m none s = s
dismiss_recommendation m (some i) s = elim (find (is_recommendation m.tenant i) s.recommendations) [
  | none ↦ s
  | some r ↦ record s {
    recommendations =
        update (is_recommendation m.tenant i) (λ x. record x { accepted_at = none })
          s.recommendations;
    decisions =
        s.decisions
        ++ (record {
          workspace_id = m.tenant.workspace;
          product_id = m.tenant.product;
          recommendation_id = i;
          reason = m.reason;
          comment = m.comment;
          actor_id = m.actor;
          created_at = m.now;
        })
          ∷ [];
  }
]

abbrev pub after_dismissal : Move → PlanAction → Store → Store
after_dismissal m a s = elim m.target [
  | ActionStatus.dismissed ↦ dismiss_recommendation m a.recommendation_id s
  | _ ↦ s
]

abbrev pub event_of : Move → PlanAction → ActionEvent
event_of m a = record {
  workspace_id = m.tenant.workspace;
  product_id = m.tenant.product;
  action_id = a.id;
  event_type = m.target;
  previous_status = a.status;
  new_status = m.target;
  actor_id = m.actor;
  reason = m.reason;
}

unfoldable pub transition_canonical_action : Move → Store → Result CommandError (PlanAction × Store)
transition_canonical_action m s = do
  a ← or_raise (get_action m.tenant m.action_id s) CommandError.lookup_error
  check_start m a s
  status ← transition_action a.status m.target
  let moved = record s {
    actions = update (is_action m.tenant m.action_id) (moved_row m status) s.actions;
  }
  let settled = after_dismissal m a moved
  ok (
    moved_row m status a,
    record settled { action_events = settled.action_events ++ event_of m a ∷ [] },
  )

-- The product events of the moves that have one.
abbrev pub event_name : ActionStatus → Option EventName
event_name ActionStatus.dismissed = some EventName.action_dismissed
event_name ActionStatus.executing = some EventName.action_started
event_name ActionStatus.completed = some EventName.action_completed
event_name _ = none

abbrev pub note_event : Option EventName → Move → Store → Result CommandError Store
note_event none m s = ok s
note_event (some name) m s =
    write_product_event
      (record {
        workspace_id = m.tenant.workspace;
        product_id = m.tenant.product;
        actor_id = some m.actor;
        event_name = name;
        resource_id = m.action_id;
        resource_revision = none;
      })
      s

abbrev pub note_move : Move → Store → Result CommandError Store
note_move m s = note_event (event_name m.target) m s

-- `timedelta(days=...)` in microseconds.
abbrev pub days : ℕ → ℕ
days n = n * 86400000000

-- `action.measurement_window_days or 28`
abbrev pub window_days : Option ℕ → ℕ
window_days none = 28
window_days (some n) = if n == 0 then 28 else n

abbrev pub of_outbox {ℓ} : {A : Type ℓ} → Result DbError A → Result CommandError A
of_outbox (ok a) = ok a
of_outbox (err e) = err CommandError.refused_insert

-- `id_text` is `str` on identifiers, and `measurement_key` the suffix of the caller's key. The
-- baseline that is read from the search tables is not kept in the row.
module _ (id_text : ℕ → String) (measurement_key : String → String) where
  abbrev pub followup_event : Tenant → (id event_id due : ℕ) → OutboxEvent
  followup_event t id event_id due = record {
    id = event_id;
    event_name = "operator/measurement.followup";
    schema_version = 1;
    idempotency_key = id_text id;
    aggregate_id = some id;
    workspace_id = some t.workspace;
    product_id = some t.product;
    metadata_payload = [];
    status = OutboxStatus.pending;
    attempts = 0;
    available_at = due;
    lease_expires_at = none;
    created_at = 0;
    published_at = none;
    last_error_category = none;
  }

  abbrev pub add_window :
      Tenant
      → (action_id id event_id starts due now : ℕ) → String
      → Store
      → Result CommandError Store
  add_window t action_id id event_id starts due now key s = do
    (_, rows) ← of_outbox (enqueue_outbox_event s.outbox now (followup_event t id event_id due))
    ok (record s {
      measurements =
          s.measurements
          ++ (record {
            id = id;
            workspace_id = t.workspace;
            product_id = some t.product;
            action_id = action_id;
            starts_at = starts;
            ends_at = due;
            due_at = due;
            idempotency_key = key;
          })
            ∷ [];
      outbox = rows;
    })

  unfoldable pub schedule_measurement :
      Tenant
      → (action_id : ℕ) → String
      → (starts now id event_id : ℕ) → Store
      → Result CommandError Store
  schedule_measurement t action_id key starts now id event_id s = do
    a ← or_raise (get_action t action_id s) CommandError.lookup_error
    let due = starts + days (window_days a.measurement_window_days)
    let dated = record s {
      actions =
          update (is_action t action_id) (λ x. record x { measurement_due_at = some due })
            s.actions;
    }
    elim (find
        (λ (w : MeasurementWindow). w.workspace_id == t.workspace && str_eq w.idempotency_key key)
        s.measurements) [
          | some w ↦ ok dated
          | none ↦ add_window t action_id id event_id starts due now key dated
        ]

  abbrev pub measure_completed :
      Move → Command → (id event_id : ℕ) → PlanAction → Store → Result CommandError Store
  measure_completed m c id event_id a s = elim m.target [
    | ActionStatus.completed ↦
        schedule_measurement m.tenant m.action_id (measurement_key c.idempotency_key) m.now m.now id
          event_id s
    | _ ↦ ok s
  ]

  unfoldable pub move_fresh :
      Move → Command → (id event_id : ℕ) → Store → Result CommandError (ℕ × Store)
  move_fresh m c id event_id s = do
    a ← or_raise (get_action m.tenant m.action_id s) CommandError.lookup_error
    if same_action a.status m.target then ok (a.id, record_command c a.id s) else do
      (row, moved) ← transition_canonical_action m s
      noted ← note_move m moved
      measured ← measure_completed m c id event_id row noted
      ok (row.id, record_command c row.id measured)

  unfoldable pub transition_action_use_case :
      Move → Command → (id event_id : ℕ) → Store → Result CommandError (ℕ × Store)
  unfolding move_fresh
  transition_action_use_case m c id event_id s = do
    replay ← command_replay c s
    elim replay [
      | none ↦ move_fresh m c id event_id s
      | some i ↦ do a ← or_raise (get_action m.tenant i s) CommandError.lookup_error; ok (a.id, s)
    ]
