-- ===== src/Examples/Cooling.antt =====
-- A completed search decline, long ago.
use shiptawk_be.Prelude.{◌*◌, ◌≤◌, ◌≡◌, refl, ◌⊎◌, none, some, List, [], ◌∷◌, arith}
use shiptawk_be.Cooldown.{
  OpportunityHistoryItem, OpportunityStatus, OpportunityType, EvaluationReason, day,
  cooldown_decision, novelty_for_history,
}
use shiptawk_be.Cooldown.Novelty.{novelty_for_history-bounds, novelty_for_history-later}

abbrev completed_item : OpportunityHistoryItem
completed_item = record {
  status = OpportunityStatus.completed;
  occurred_at = day;
  dismissal_reason = none;
  cooldown_until = none;
}

abbrev history : List OpportunityHistoryItem
history = completed_item ∷ []

not_held : (novelty_for_history history OpportunityType.search_decline (40 * day)).reason ≡ none
unfolding novelty_for_history cooldown_decision
not_held = refl

novelty_for_history-later_example :
    ((novelty_for_history history OpportunityType.search_decline (200 * day)).reason ≡ none)
    × ((novelty_for_history history OpportunityType.search_decline (200 * day)).score
        ≤ (novelty_for_history history OpportunityType.search_decline (40 * day)).score)
novelty_for_history-later_example =
    novelty_for_history-later history OpportunityType.search_decline (40 * day) (200 * day)
      (omega arith) not_held

novelty_for_history-bounds_example :
    ((r : EvaluationReason) × ((novelty_for_history history OpportunityType.search_decline
          (2 * day)).reason
        ≡ some r)
      × ((novelty_for_history history OpportunityType.search_decline (2 * day)).score ≡ 0))
    ⊎ ((novelty_for_history history OpportunityType.search_decline (2 * day)).reason ≡ none)
      × (50 ≤ (novelty_for_history history OpportunityType.search_decline (2 * day)).score)
      × ((novelty_for_history history OpportunityType.search_decline (2 * day)).score ≤ 100)
novelty_for_history-bounds_example =
    novelty_for_history-bounds history OpportunityType.search_decline (2 * day)
