-- ===== src/Cooldown/Novelty.antt =====
-- `novelty_for_history`: its range, and its course over time.
use shiptawk_be.Prelude.{
  ℕ, ◌/◌, ◌-◌, min, ◌≤◌, ◌≡◌, refl, sym, subst, ◌⊎◌, Option, none, some, List, [], ◌∷◌, map, arith,
  Option-cases, inl, inr,
}
use shiptawk_be.Cooldown.{
  OpportunityHistoryItem, OpportunityType, OpportunityStatus, EvaluationReason, NoveltyScore, day,
  aged_decision, cooldown_end, cooldown_decision, first_reason, min_score, combined,
  novelty_for_history,
}

age_mono : (a b c : ℕ) → a ≤ b → (a - c) / day ≤ (b - c) / day
age_mono a b c h = omega arith

aged_decision-later :
    (item : OpportunityHistoryItem) (until : Option ℕ) (as_of later : ℕ)
    → as_of ≤ later
    → (aged_decision item until as_of).reason ≡ none
    → ((aged_decision item until later).reason ≡ none)
      × ((aged_decision item until later).score ≤ (aged_decision item until as_of).score)
aged_decision-later item until as_of later h open_now =
    let older = age_mono as_of later item.occurred_at h in (ground arith, ground arith)

cooldown_decision-later :
    (item : OpportunityHistoryItem) (kind : OpportunityType) (as_of later : ℕ)
    → as_of ≤ later
    → (cooldown_decision item kind as_of).reason ≡ none
    → ((cooldown_decision item kind later).reason ≡ none)
      × ((cooldown_decision item kind later).score ≤ (cooldown_decision item kind as_of).score)
unfolding cooldown_decision
cooldown_decision-later item kind as_of later h now = by_status item.status now
  where
    by_status :
        (status : OpportunityStatus)
        → (cooldown_decision (record item { status = status }) kind as_of).reason ≡ none
        → ((cooldown_decision (record item { status = status }) kind later).reason ≡ none)
          × ((cooldown_decision (record item { status = status }) kind later).score
              ≤ (cooldown_decision (record item { status = status }) kind as_of).score)
    by_status OpportunityStatus.open_now p = absurd (ground arith)
    by_status OpportunityStatus.planned p = absurd (ground arith)
    by_status OpportunityStatus.superseded p = (refl, omega arith)
    by_status OpportunityStatus.completed p =
        aged_decision-later item
          (cooldown_end (record item { status = OpportunityStatus.completed }) kind
            item.cooldown_until)
          as_of later h p
    by_status OpportunityStatus.dismissed p =
        aged_decision-later item
          (cooldown_end (record item { status = OpportunityStatus.dismissed }) kind
            item.cooldown_until)
          as_of later h p

cooldown_decision-open :
    (item : OpportunityHistoryItem) (kind : OpportunityType) (as_of : ℕ)
    → (cooldown_decision item kind as_of).reason ≡ none
    → (50 ≤ (cooldown_decision item kind as_of).score)
      × ((cooldown_decision item kind as_of).score ≤ 100)
unfolding cooldown_decision
cooldown_decision-open item kind as_of now = (ground arith, ground arith)

abbrev decisions : List OpportunityHistoryItem → OpportunityType → ℕ → List NoveltyScore
decisions items kind as_of = map (λ item. cooldown_decision item kind as_of) items

-- The first reason is none exactly if the head's and the others' are.
first_reason-cons :
    (d : NoveltyScore) (ds : List NoveltyScore)
    → first_reason (d ∷ ds) ≡ none
    → (d.reason ≡ none) × (first_reason ds ≡ none)
first_reason-cons d ds h = elim (Option-cases d.reason) [
  | inl free ↦ (free, ground arith)
  | inr (r, blocked) ↦ absurd (ground arith)
]

both_free :
    (d : NoveltyScore) (ds : List NoveltyScore)
    → d.reason ≡ none
    → first_reason ds ≡ none
    → first_reason (d ∷ ds) ≡ none
both_free d ds own others = ground arith

min_score-later :
    (items : List OpportunityHistoryItem) (kind : OpportunityType) (as_of later best best' : ℕ)
    → as_of ≤ later
    → best' ≤ best
    → first_reason (decisions items kind as_of) ≡ none
    → (first_reason (decisions items kind later) ≡ none)
      × (min_score best' (decisions items kind later) ≤ min_score best (decisions items kind as_of))
min_score-later [] kind as_of later best best' h lower now = (refl, lower)
min_score-later (item ∷ items) kind as_of later best best' h lower now =
    let (own, others) =
      first_reason-cons (cooldown_decision item kind as_of) (decisions items kind as_of) now in
    let (own_later, falls) = cooldown_decision-later item kind as_of later h own in
    let (rest, bound) =
      min_score-later items kind as_of later (min best (cooldown_decision item kind as_of).score)
        (min best' (cooldown_decision item kind later).score) h (omega arith) others in
    (
      both_free (cooldown_decision item kind later) (decisions items kind later) own_later rest,
      bound,
    )

min_score-bounds :
    (items : List OpportunityHistoryItem) (kind : OpportunityType) (as_of best : ℕ)
    → 50 ≤ best
    → best ≤ 100
    → first_reason (decisions items kind as_of) ≡ none
    → (50 ≤ min_score best (decisions items kind as_of))
      × (min_score best (decisions items kind as_of) ≤ 100)
min_score-bounds [] kind as_of best low high now = (low, high)
min_score-bounds (item ∷ items) kind as_of best low high now =
    let (own, others) =
      first_reason-cons (cooldown_decision item kind as_of) (decisions items kind as_of) now in
    let (from, to) = cooldown_decision-open item kind as_of own in
    min_score-bounds items kind as_of (min best (cooldown_decision item kind as_of).score)
      (omega arith) (omega arith) others

combined-free :
    (d : NoveltyScore) (ds : List NoveltyScore)
    → first_reason (d ∷ ds) ≡ none
    → combined (d ∷ ds) ≡ record { score = min_score d.score ds; reason = none }
combined-free d ds h = ground arith

-- The novelty of a history is 0 with a reason, or without one from 50 to 100.
pub novelty_for_history-bounds :
    (items : List OpportunityHistoryItem) (kind : OpportunityType) (as_of : ℕ)
    → ((r : EvaluationReason) × ((novelty_for_history items kind as_of).reason ≡ some r)
        × ((novelty_for_history items kind as_of).score ≡ 0))
      ⊎ ((novelty_for_history items kind as_of).reason ≡ none)
        × (50 ≤ (novelty_for_history items kind as_of).score)
        × ((novelty_for_history items kind as_of).score ≤ 100)
unfolding novelty_for_history
novelty_for_history-bounds [] kind as_of = inr (refl, omega arith, omega arith)
novelty_for_history-bounds (item ∷ items) kind as_of =
    elim (Option-cases (first_reason (decisions (item ∷ items) kind as_of))) [
      | inr (r, blocked) ↦ inl (r, ground arith, ground arith)
      | inl free ↦
          let (own, others) =
            first_reason-cons (cooldown_decision item kind as_of) (decisions items kind as_of)
              free in
          let (low, high) = cooldown_decision-open item kind as_of own in
          let (from, to) =
            min_score-bounds items kind as_of (cooldown_decision item kind as_of).score low high
              others in
          let now =
            sym (
              combined-free (cooldown_decision item kind as_of) (decisions items kind as_of)
                free) in
          inr (
            subst (λ n. n.reason ≡ none) now refl,
            subst (λ n. 50 ≤ n.score) now from,
            subst (λ n. n.score ≤ 100) now to,
          )
    ]

-- A history that does not hold an opportunity back does not do so at any later time, and its novelty
-- never rises.
pub novelty_for_history-later :
    (items : List OpportunityHistoryItem) (kind : OpportunityType) (as_of later : ℕ)
    → as_of ≤ later
    → (novelty_for_history items kind as_of).reason ≡ none
    → ((novelty_for_history items kind later).reason ≡ none)
      × ((novelty_for_history items kind later).score
          ≤ (novelty_for_history items kind as_of).score)
unfolding novelty_for_history
novelty_for_history-later [] kind as_of later h now = (refl, omega arith)
novelty_for_history-later (item ∷ items) kind as_of later h now =
    elim (Option-cases (first_reason (decisions (item ∷ items) kind as_of))) [
      | inr (r, blocked) ↦ absurd (ground arith)
      | inl free ↦
          let (own, others) =
            first_reason-cons (cooldown_decision item kind as_of) (decisions items kind as_of)
              free in
          let (own_later, falls) = cooldown_decision-later item kind as_of later h own in
          let (rest, bound) =
            min_score-later items kind as_of later (cooldown_decision item kind as_of).score
              (cooldown_decision item kind later).score h falls others in
          let free_later : first_reason (decisions (item ∷ items) kind later) ≡ none =
            both_free (cooldown_decision item kind later) (decisions items kind later) own_later
              rest in
          let after = sym (
            combined-free (cooldown_decision item kind later) (decisions items kind later)
              free_later) in
          let before =
            sym (
              combined-free (cooldown_decision item kind as_of) (decisions items kind as_of)
                free) in
          (
            subst (λ n. n.reason ≡ none) after refl,
            subst (λ n. n.score ≤ (novelty_for_history (item ∷ items) kind as_of).score) after
                (subst
                  (λ n.
                    min_score (cooldown_decision item kind later).score (decisions items kind later)
                    ≤ n.score)
                  before bound),
          )
    ]
