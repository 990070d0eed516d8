-- ===== src/Cooldown.antt =====
-- app/modules/operator/policies/cooldown_policy.py: when an opportunity of the past keeps a new one
-- back, and how novel the new one is otherwise. Times are microseconds.
pub mod Novelty
use shiptawk_be.Prelude.{
  ℕ, ◌+◌, ◌*◌, ◌/◌, ◌-◌, min, Bool, true, false, String, Option, none, some, List, [], ◌∷◌, map,
  ltb, str_eq, if◌then◌else◌,
}

pub data OpportunityStatus : Type 0 where
  open_now planned completed dismissed superseded : OpportunityStatus

pub data OpportunityType : Type 0 where
  high_impressions_low_ctr ranking_within_reach search_decline : OpportunityType
  shipped_but_not_marketed search_demand_without_dedicated_content : OpportunityType
  existing_page_needs_improvement : OpportunityType

-- The two reasons that this policy gives.
pub data EvaluationReason : Type 0 where
  duplicate cooldown_active : EvaluationReason

pub record OpportunityHistoryItem : Type 0 where
  pub status : OpportunityStatus
  pub occurred_at : ℕ
  pub dismissal_reason : Option String
  pub cooldown_until : Option ℕ

abbrev pub day : ℕ
day = 86400000000

-- `COMPLETED_DAYS`
abbrev pub completed_days : OpportunityType → ℕ
completed_days high_impressions_low_ctr = 56
completed_days ranking_within_reach = 56
completed_days search_decline = 28
completed_days shipped_but_not_marketed = 84
completed_days search_demand_without_dedicated_content = 90
completed_days existing_page_needs_improvement = 56

-- `DISMISSAL_DAYS.get(reason, 56)`; the reasons with 56 days are the default's too.
unfoldable pub days_of_reason : String → ℕ
days_of_reason reason =
    if str_eq reason "not_relevant"
    then 90
    else if str_eq reason "already_done"
    then 180
    else if str_eq reason "not_now"
    then 28
    else if str_eq reason "duplicate"
    then 90
    else 56

abbrev pub dismissal_days : Option String → ℕ
dismissal_days none = days_of_reason ""
dismissal_days (some reason) = days_of_reason reason

-- `until`, once the statuses without a cooldown have returned.
abbrev pub cooldown_end : OpportunityHistoryItem → OpportunityType → Option ℕ → Option ℕ
cooldown_end item kind (some until) = some until
cooldown_end item kind none = elim item.status [
  | completed ↦ some (item.occurred_at + completed_days kind * day)
  | dismissed ↦ some (item.occurred_at + dismissal_days item.dismissal_reason * day)
  | _ ↦ none
]

pub record NoveltyScore : Type 0 where
  pub score : ℕ
  pub reason : Option EvaluationReason

abbrev pub is_before : ℕ → Option ℕ → Bool
is_before as_of none = false
is_before as_of (some until) = ltb as_of until

-- An age that is negative in the source is 0 here; both are below 90 days.
abbrev pub aged_decision : OpportunityHistoryItem → Option ℕ → ℕ → NoveltyScore
aged_decision item until as_of =
    if is_before as_of until then record { score = 0; reason = some cooldown_active } else record {
      score = if ltb ((as_of - item.occurred_at) / day) 90 then 70 else 50;
      reason = none;
    }

unfoldable pub cooldown_decision : OpportunityHistoryItem → OpportunityType → ℕ → NoveltyScore
cooldown_decision item kind as_of = elim item.status [
  | open_now ↦ record { score = 0; reason = some duplicate }
  | planned ↦ record { score = 0; reason = some duplicate }
  | superseded ↦ record { score = 100; reason = none }
  | _ ↦ aged_decision item (cooldown_end item kind item.cooldown_until) as_of
]

-- The first reason of the decisions.
abbrev pub first_reason : List NoveltyScore → Option EvaluationReason
first_reason [] = none
first_reason (d ∷ ds) = elim d.reason [ some r ↦ some r | none ↦ first_reason ds ]

-- `min(score for score, _ in decisions)`, of a first decision and the others.
abbrev pub min_score : ℕ → List NoveltyScore → ℕ
min_score best [] = best
min_score best (d ∷ ds) = min_score (min best d.score) ds

abbrev pub combined : List NoveltyScore → NoveltyScore
combined [] = record { score = 100; reason = none }
combined (d ∷ ds) = elim (first_reason (d ∷ ds)) [
  | some r ↦ record { score = 0; reason = some r }
  | none ↦ record { score = min_score d.score ds; reason = none }
]

unfoldable pub novelty_for_history :
    List OpportunityHistoryItem → OpportunityType → ℕ → NoveltyScore
novelty_for_history items kind as_of =
    combined (map (λ item. cooldown_decision item kind as_of) items)
