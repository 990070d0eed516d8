-- ===== src/Weekly/Commands/Move/Legal.antt =====
-- `transition_action_use_case`: the statuses before and after a move.
use shiptawk_be.Prelude.{
  ℕ, ◌+◌, ◌≡◌, refl, ap, subst, ◌∙◌, ◌⊎◌, inl, inr, true, false, String, Option, none, some, List,
  arith, find, find-update, find-update-some, find-holds, update, ◌==◌, ok, Result-cases,
  Option-cases, Bool-cases, if◌then◌else◌,
}
use shiptawk_be.Weekly.Policy.{ActionStatus, transition_action, same_action}
use shiptawk_be.Weekly.Store.{Tenant, Store, PlanAction, EventName, is_action, get_action}
use shiptawk_be.Weekly.Lifecycle.{transition_action-target}
use shiptawk_be.Weekly.Frames.{write_product_event-Keeps}
use shiptawk_be.Weekly.Commands.{Command, record_command}
use shiptawk_be.Weekly.Commands.Move.{
  Move, check_start, moved_row, after_dismissal, transition_canonical_action, note_event, note_move,
  event_name, days, window_days, schedule_measurement, measure_completed, move_fresh,
}

after_dismissal-actions :
    (m : Move) (a : PlanAction) (s : Store) → (after_dismissal m a s).actions ≡ s.actions
after_dismissal-actions m a s = ground arith

pub transition_canonical_action-ok :
    (m : Move) (s after : Store) (row : PlanAction)
    → transition_canonical_action m s ≡ ok (row, after)
    → (a : PlanAction) × (get_action m.tenant m.action_id s ≡ some a)
      × (transition_action a.status m.target ≡ ok m.target)
      × (row ≡ moved_row m m.target a)
      × (after.actions ≡ update (is_action m.tenant m.action_id) (moved_row m m.target) s.actions)
unfolding transition_canonical_action
transition_canonical_action-ok m s after row h =
    elim (Option-cases (get_action m.tenant m.action_id s)) [
      | inl gone ↦ absurd (ground arith)
      | inr (a, there) ↦ elim (Result-cases (check_start m a s)) [
        | inr (e, refused) ↦ absurd (ground arith)
        | inl (u, checked) ↦ elim (Result-cases (transition_action a.status m.target)) [
          | inr (e, refused) ↦ absurd (ground arith)
          | inl (status, moved) ↦
              let target : status ≡ m.target = transition_action-target a.status m.target moved in
              let changed =
                update (is_action m.tenant m.action_id) (moved_row m status) s.actions in
              let same_row : row ≡ moved_row m status a = ground arith in
              let same_actions : after.actions ≡ changed =
                ground (arith, after_dismissal-actions m a (record s { actions = changed })) in
              (
                a,
                there,
                rw moved (ap ok target),
                subst (λ v. row ≡ moved_row m v a) target same_row,
                subst
                    (λ v.
                      after.actions
                      ≡ update (is_action m.tenant m.action_id) (moved_row m v) s.actions)
                    target same_actions,
              )
        ]
      ]
    ]

pub note_event-actions :
    (name : Option EventName) (m : Move) (s : Store) {after : Store}
    → note_event name m s ≡ ok after
    → after.actions ≡ s.actions
note_event-actions none m s {after} h = ground arith
note_event-actions (some name) m s h = (write_product_event-Keeps _ s h).actions

schedule-actions :
    (id_text : ℕ → String) (measurement_key : String → String) (t : Tenant) (action_id : ℕ)
    (key : String) (starts now id event_id : ℕ) (s : Store) {after : Store}
    → schedule_measurement id_text measurement_key t action_id key starts now id event_id s
      ≡ ok after
    → (due : ℕ) × (after.actions
        ≡ update
            (is_action t action_id)
            (λ x. record x { measurement_due_at = some due })
            s.actions)
unfolding schedule_measurement
schedule-actions id_text measurement_key t action_id key starts now id event_id s {after} h =
    elim (Option-cases (get_action t action_id s)) [
      | inl gone ↦ absurd (ground arith)
      | inr (a, there) ↦ (starts + days (window_days a.measurement_window_days), ground arith)
    ]

-- What scheduling the measurement of a completed action leaves of the actions.
abbrev pub Redated : Move → Store → Store → Type 0
Redated m s after =
    (after.actions ≡ s.actions)
    ⊎ (due : ℕ) × (after.actions
        ≡ update (is_action m.tenant m.action_id) (λ x. record x { measurement_due_at = some due })
            s.actions)

pub measure_completed-Redated :
    (id_text : ℕ → String) (measurement_key : String → String) (m : Move) (target : ActionStatus)
    (c : Command) (id event_id : ℕ) (a : PlanAction) (s : Store) {after : Store}
    → measure_completed id_text measurement_key (record m { target = target }) c id event_id a s
      ≡ ok after
    → Redated m s after
measure_completed-Redated id_text measurement_key m ActionStatus.completed c id event_id a s h =
    inr
      (schedule-actions id_text measurement_key m.tenant m.action_id _ m.now m.now id event_id s h)
measure_completed-Redated id_text measurement_key m target c id event_id a s {after} h =
    inl (ground arith)

same_action-eq : (a b : ActionStatus) → same_action a b ≡ true → a ≡ b
same_action-eq a b h = ground arith

-- The rows of a rewritten table of actions: the action's own, and any other.
own_row :
    (t : Tenant) (i : ℕ) (f : PlanAction → PlanAction)
    → ((x : PlanAction) → is_action t i (f x) ≡ is_action t i x)
    → (xs : List PlanAction) (a : PlanAction) → find (is_action t i) xs ≡ some a
    → find (is_action t i) (update (is_action t i) f xs) ≡ some (f a)
own_row t i f same xs a there =
    find-update-some (is_action t i) (is_action t i) f same xs a there
    ∙ ap (λ b. some (if b then f a else a)) (find-holds (is_action t i) xs there)

other_row :
    (t : Tenant) (i j : ℕ) (f : PlanAction → PlanAction)
    → ((x : PlanAction) → is_action t j (f x) ≡ is_action t j x)
    → (i == j) ≡ false
    → (xs : List PlanAction)
    → find (is_action t j) (update (is_action t i) f xs) ≡ find (is_action t j) xs
other_row t i j f same apart xs =
    find-update (is_action t j) (is_action t i) f same (λ x hit. ground arith) xs

pub moved_row_same :
    (m : Move) (status : ActionStatus) (t : Tenant) (j : ℕ) (x : PlanAction)
    → is_action t j (moved_row m status x) ≡ is_action t j x
moved_row_same m status t j x = ground arith

moved_row_status :
    (m : Move) (status : ActionStatus) (x : PlanAction) → (moved_row m status x).status ≡ status
moved_row_status m status x = ground arith

-- The own row has the target, the others are as they were.
abbrev Rewritten : Move → Store → Store → Type 0
Rewritten m s after =
    ((new : PlanAction) × (get_action m.tenant m.action_id after ≡ some new)
      × (new.status ≡ m.target))
    × ((j : ℕ) → (m.action_id == j) ≡ false → get_action m.tenant j after ≡ get_action m.tenant j s)

moved_actions :
    (m : Move) (s after : Store) (a : PlanAction)
    → get_action m.tenant m.action_id s ≡ some a
    → after.actions ≡ update (is_action m.tenant m.action_id) (moved_row m m.target) s.actions
    → Rewritten m s after
unfolding get_action
moved_actions m s after a there changed = (
  (
    moved_row m m.target a,
    rw changed (
        own_row m.tenant m.action_id (moved_row m m.target)
          (moved_row_same m m.target m.tenant m.action_id) s.actions a there),
    moved_row_status m m.target a,
  ),
  λ j apart. rw changed (
      other_row m.tenant m.action_id j (moved_row m m.target) (moved_row_same m m.target m.tenant j)
        apart s.actions),
)

Redated-actions :
    (m : Move) (s mid after : Store) → Redated m mid after → Rewritten m s mid → Rewritten m s after
unfolding get_action
Redated-actions m s mid after (inl same) h =
    ((h.0.0, rw same h.0.1, h.0.2), λ j apart. rw same (h.1 j apart))
Redated-actions m s mid after (inr (due, changed)) h = (
  (
    record (h.0.0) { measurement_due_at = some due },
    rw changed (
        own_row m.tenant m.action_id (λ x. record x { measurement_due_at = some due }) (λ x. refl)
          mid.actions h.0.0 h.0.1),
    h.0.2,
  ),
  λ j apart. rw changed (
      other_row m.tenant m.action_id j (λ x. record x { measurement_due_at = some due }) (λ x. refl)
        apart mid.actions
      ∙ h.1 j apart),
)

-- What a whole move leaves: its own row with the target, and every other row as it was.
abbrev pub MovedTo : Move → Store → Store → Type 0
MovedTo m s after =
    ((new : PlanAction) × (get_action m.tenant m.action_id after ≡ some new)
      × (new.status ≡ m.target))
    × ((j : ℕ) → (m.action_id ≡ j) ⊎ (get_action m.tenant j after ≡ get_action m.tenant j s))

all_rows : (m : Move) (s after : Store) → Rewritten m s after → MovedTo m s after
all_rows m s after (own, others) = (
  own,
  λ j. elim (Bool-cases (m.action_id == j)) [
    | inl same ↦ inl (ground arith)
    | inr apart ↦ inr (others j apart)
  ],
)

module _ (id_text : ℕ → String) (measurement_key : String → String) (m : Move) (c : Command)
    (id event_id : ℕ) where
  moved_fresh :
      (s after : Store) (i : ℕ) (a : PlanAction)
      → get_action m.tenant m.action_id s ≡ some a
      → same_action a.status m.target ≡ false
      → move_fresh id_text measurement_key m c id event_id s ≡ ok (i, after)
      → (transition_action a.status m.target ≡ ok m.target) × Rewritten m s after
  unfolding move_fresh record_command get_action
  moved_fresh s after i a there differs h = elim (Result-cases (transition_canonical_action m s)) [
    | inr (e, refused) ↦ absurd (ground arith)
    | inl ((row, mid), moved) ↦
        let (b, there', legal, _, changed) = transition_canonical_action-ok m s mid row moved in
        let same : b ≡ a = ground arith in
        elim (Result-cases (note_move m mid)) [
          | inr (e, refused) ↦ absurd (ground arith)
          | inl (noted, event) ↦
              elim (Result-cases
                (measure_completed id_text measurement_key m c id event_id row noted)) [
                  | inr (e, refused) ↦ absurd (ground arith)
                  | inl (last, measured) ↦
                      let recorded : record_command c row.id last ≡ after = ground arith in
                      let at_mid = moved_actions m s mid a there changed in
                      let at_noted =
                        Redated-actions m s mid noted
                          (inl (note_event-actions (event_name m.target) m mid event)) at_mid in
                      let at_last =
                        Redated-actions m s noted last
                          (measure_completed-Redated id_text measurement_key m m.target c id
                            event_id row noted measured)
                          at_noted in
                      (
                        subst (λ x. transition_action x.status m.target ≡ ok m.target) same legal,
                        subst (Rewritten m s) recorded at_last,
                      )
                ]
        ]
  ]

  -- A command that is no replay and moves an action returns only if the action was in the target
  -- status already or the transition table allows the move. Then the action is in the target status,
  -- and every other action of the product is the row it was.
  pub move_fresh-legal :
      (s after : Store) (i : ℕ)
      → move_fresh id_text measurement_key m c id event_id s ≡ ok (i, after)
      → (old : PlanAction) × (get_action m.tenant m.action_id s ≡ some old)
        × ((old.status ≡ m.target) ⊎ (transition_action old.status m.target ≡ ok m.target))
        × MovedTo m s after
  unfolding move_fresh record_command get_action
  move_fresh-legal s after i h = elim (Option-cases (get_action m.tenant m.action_id s)) [
    | inl gone ↦ absurd (ground arith)
    | inr (a, there) ↦ elim (Bool-cases (same_action a.status m.target)) [
      | inr differs ↦
          let (legal, moved) = moved_fresh s after i a there differs h in
          (a, there, inr legal, all_rows m s after moved)
      | inl at_target ↦
          let same = same_action-eq a.status m.target at_target in
          let recorded : record_command c a.id s ≡ after = ground arith in
          (
            a,
            there,
            inl same,
            all_rows m s after (subst (Rewritten m s) recorded ((a, there, same), λ j apart. refl)),
          )
    ]
  ]
