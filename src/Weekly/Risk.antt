-- ===== src/Weekly/Risk.antt =====
-- app/modules/operator/policies/risk_policy.py: the risk of a prepared asset.
pub mod Severity
use shiptawk_be.Prelude.{
  ℕ, Bool, true, false, ◌&&◌, ◌||◌, not, Option, none, some, List, [], ◌∷◌, any, ◌==◌, Result, ok,
  err, if◌then◌else◌,
}
use shiptawk_be.Text.{Text, has_part}
use shiptawk_be.Weekly.Policy.{CommandError}
use shiptawk_be.Weekly.Store.{RiskOutcome, pass, block}

abbrev pub is_blank : Text → Bool
is_blank [] = true
is_blank _ = false

-- `content` is the folded JSON text of the asset; `stripped` and `folded` are `str.strip` and
-- `str.casefold`.
module _ (stripped folded : Text → Text) where
  unfoldable pub contains : Text → List Text → Bool
  contains content values =
      any (λ v. not (is_blank (stripped v)) && has_part (folded (stripped v)) content) values

  unfoldable pub evaluate_asset_safety : Text → (terms topics boundaries : List Text) → RiskOutcome
  unfolding contains
  evaluate_asset_safety content terms topics boundaries =
      if contains content terms || contains content topics
      then block
      else if contains content boundaries
      then RiskOutcome.review
      else pass

abbrev pub is_block_outcome : RiskOutcome → Bool
is_block_outcome block = true
is_block_outcome _ = false

abbrev pub is_review_outcome : RiskOutcome → Bool
is_review_outcome RiskOutcome.review = true
is_review_outcome _ = false

abbrev pub joined : RiskOutcome → RiskOutcome → RiskOutcome
joined deterministic ai =
    if is_block_outcome deterministic || is_block_outcome ai
    then block
    else if is_review_outcome deterministic || is_review_outcome ai
    then RiskOutcome.review
    else pass

-- An outcome that is none of the three is `none`.
unfoldable pub final_risk_outcome :
    Option RiskOutcome → Option RiskOutcome → Result CommandError RiskOutcome
final_risk_outcome (some deterministic) (some ai) = ok (joined deterministic ai)
final_risk_outcome _ _ = err CommandError.value_error
