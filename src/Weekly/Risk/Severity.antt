-- ===== src/Weekly/Risk/Severity.antt =====
-- The order of the outcomes of risk_policy.py.
use shiptawk_be.Prelude.{
  ℕ, ◌≤◌, ◌≡◌, refl, max, Bool, true, ◌||◌, some, List, [], ◌∷◌, ◌++◌, arith, any, ok,
  if◌then◌else◌,
}
use shiptawk_be.Text.{Text}
use shiptawk_be.Weekly.Store.{RiskOutcome}
use shiptawk_be.Weekly.Risk.{joined, contains, evaluate_asset_safety, final_risk_outcome}

-- pass, review, block
abbrev pub severity : RiskOutcome → ℕ
severity RiskOutcome.pass = 0
severity RiskOutcome.review = 1
severity RiskOutcome.block = 2

joined-severity : (a b : RiskOutcome) → severity (joined a b) ≡ max (severity a) (severity b)
joined-severity RiskOutcome.pass b = ground arith
joined-severity RiskOutcome.review b = ground arith
joined-severity RiskOutcome.block b = ground arith

any-append_left : (p : Text → Bool) (xs ys : List Text) → any p xs ≡ true → any p (xs ++ ys) ≡ true
any-append_left p [] ys h = absurd (ground arith)
any-append_left p (x ∷ xs) ys h = ground (arith, any-append_left p xs ys)

-- The severity of an evaluation, of the tests that it makes.
severity_mono :
    (a b c a' b' c' : Bool)
    → (a ≡ true → a' ≡ true)
    → (b ≡ true → b' ≡ true)
    → (c ≡ true → c' ≡ true)
    → severity
        (if a || b then RiskOutcome.block else if c then RiskOutcome.review else RiskOutcome.pass)
      ≤ severity (
          if a' || b'
          then RiskOutcome.block
          else if c'
          then RiskOutcome.review
          else RiskOutcome.pass)
severity_mono a b c a' b' c' f g h = ground arith

-- The final outcome of two known outcomes is the more severe of them.
pub final_risk_outcome-severity :
    (deterministic ai : RiskOutcome)
    → (final : RiskOutcome) × (final_risk_outcome (some deterministic) (some ai) ≡ ok final)
      × (severity final ≡ max (severity deterministic) (severity ai))
unfolding final_risk_outcome
final_risk_outcome-severity deterministic ai =
    (joined deterministic ai, refl, joined-severity deterministic ai)

-- More blocked terms, blocked topics or boundaries never make an asset less risky.
pub evaluate_asset_safety-severity :
    (stripped folded : Text → Text) (content : Text)
    (terms topics boundaries more_terms more_topics more_boundaries : List Text)
    → severity (evaluate_asset_safety stripped folded content terms topics boundaries)
      ≤ severity (
          evaluate_asset_safety stripped folded content
            (terms ++ more_terms)
            (topics ++ more_topics)
            (boundaries ++ more_boundaries))
unfolding evaluate_asset_safety
evaluate_asset_safety-severity stripped folded content terms topics boundaries more_terms
      more_topics more_boundaries =
    severity_mono (contains stripped folded content terms) (contains stripped folded content topics)
      (contains stripped folded content boundaries)
      (contains stripped folded content (terms ++ more_terms))
      (contains stripped folded content (topics ++ more_topics))
      (contains stripped folded content (boundaries ++ more_boundaries))
      (any-append_left _ terms more_terms) (any-append_left _ topics more_topics)
      (any-append_left _ boundaries more_boundaries)
