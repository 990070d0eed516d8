-- ===== src/Examples/Risks.antt =====
-- The risk of a short text.
use shiptawk_be.Prelude.{◌≤◌, List, [], ◌∷◌, ◌++◌}
use shiptawk_be.Text.{Text}
use shiptawk_be.Weekly.Risk.{evaluate_asset_safety}
use shiptawk_be.Weekly.Risk.Severity.{severity, evaluate_asset_safety-severity}

abbrev as_given : Text → Text
as_given t = t

abbrev content : Text
content = b'a' ∷ b'b' ∷ b'c' ∷ []

abbrev inner : List Text
inner = (b'b' ∷ b'c' ∷ []) ∷ []

evaluate_asset_safety-severity_example :
    severity (evaluate_asset_safety as_given as_given content [] [] inner)
    ≤ severity
        (evaluate_asset_safety as_given as_given content ([] ++ inner) ([] ++ []) (inner ++ []))
evaluate_asset_safety-severity_example =
    evaluate_asset_safety-severity as_given as_given content [] [] inner inner [] []
