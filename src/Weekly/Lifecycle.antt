-- ===== src/Weekly/Lifecycle.antt =====
-- Chains of the transitions of weekly_growth_policy.py.
use shiptawk_be.Prelude.{◌≡◌, refl, subst, ◌⊎◌, Bool, true, List, [], ◌∷◌, arith, any, ok}
use shiptawk_be.Weekly.Policy.{ActionStatus, transition_action, same_action}

-- A chain of accepted transitions of an action.
pub data Moves (s : ActionStatus) : ActionStatus → Type 0 where
  here : Moves s s
  move :
      {t : ActionStatus} (u : ActionStatus) → Moves s t → transition_action t u ≡ ok u → Moves s u

abbrev pub IsFinal : ActionStatus → Type 0
IsFinal s =
    (s ≡ ActionStatus.completed) ⊎ (s ≡ ActionStatus.dismissed) ⊎ (s ≡ ActionStatus.cancelled)

final_stays : (s t : ActionStatus) → IsFinal s → transition_action s t ≡ ok t → t ≡ s
unfolding transition_action
final_stays s t f h = ground arith

-- A completed, dismissed or cancelled action stays as it is under every chain of accepted
-- transitions.
pub Moves-final : {s t : ActionStatus} → IsFinal s → Moves s t → t ≡ s
Moves-final f here = refl
Moves-final {s} f (move {t} u m h) =
    let same : t ≡ s = Moves-final f m in
    final_stays s u f (subst (λ x. transition_action x u ≡ ok u) same h)

-- The statuses on the way, the last one first.
abbrev pub trail : {s t : ActionStatus} → Moves s t → List ActionStatus
trail {s} here = s ∷ []
trail (move u m h) = u ∷ trail m

abbrev pub visits : ActionStatus → List ActionStatus → Bool
visits u us = any (same_action u) us

-- What a chain from `pending` must have passed to be where it is.
abbrev Passed : ActionStatus → List ActionStatus → Type 0
Passed ActionStatus.executing us = visits ActionStatus.ready us ≡ true
Passed ActionStatus.failed us =
    (visits ActionStatus.ready us ≡ true) × (visits ActionStatus.executing us ≡ true)
Passed ActionStatus.completed us =
    (visits ActionStatus.ready us ≡ true) × (visits ActionStatus.executing us ≡ true)
Passed ActionStatus.ready us = visits ActionStatus.ready us ≡ true
Passed _ us = Unit

Passed-step :
    (t u : ActionStatus) (us : List ActionStatus)
    → transition_action t u ≡ ok u
    → visits t us ≡ true
    → Passed t us
    → (visits u (u ∷ us) ≡ true) × Passed u (u ∷ us)
unfolding transition_action
Passed-step ActionStatus.pending ActionStatus.pending us h v p = ground arith
Passed-step t u us h v p = ground arith

Moves-Passed :
    {t : ActionStatus} (m : Moves ActionStatus.pending t)
    → (visits t (trail m) ≡ true) × Passed t (trail m)
Moves-Passed here = (refl, tt)
Moves-Passed (move {t} u m h) =
    let (at, passed) = Moves-Passed m in Passed-step t u (trail m) h at passed

-- Every chain of accepted transitions that takes a pending action to `completed` has passed `ready`
-- and `executing` on the way.
pub completed_was_started :
    (m : Moves ActionStatus.pending ActionStatus.completed)
    → (visits ActionStatus.ready (trail m) ≡ true)
      × (visits ActionStatus.executing (trail m) ≡ true)
completed_was_started m = (Moves-Passed m).1

-- An accepted transition ends in its target.
pub transition_action-target :
    (s u : ActionStatus) {v : ActionStatus} → transition_action s u ≡ ok v → v ≡ u
unfolding transition_action
transition_action-target s u {v} h = ground arith
