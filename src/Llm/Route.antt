-- ===== src/Llm/Route.antt =====
-- app/modules/llm/policies/llm_route_policy.py: the registrations of a named route, and the cost of an
-- answer.
use shiptawk_be.Prelude.{
  ℕ, ◌+◌, ◌*◌, ◌≡◌, ◌≤◌, ap, suc, Bool, true, ◌&&◌, List, [], ◌∷◌, arith, any, all, take, length,
  length-take, Result, ok, err, guard, ◌>>=◌, ◌>>◌, All, Result-cases, Bool-cases, inl, inr,
  if◌then◌else◌, leb, subst,
}
use shiptawk_be.Text.{Text, same_text}

-- Prices are counted in millionths of their unit.
pub record ModelPricing : Type 0 where
  pub input_per_million : ℕ
  pub output_per_million : ℕ
  pub cache_read_per_million : ℕ
  pub cache_write_per_million : ℕ

pub record LlmModelRegistration : Type 0 where
  pub name : Text
  pub provider : Text
  pub model : Text
  pub capabilities : List Text
  pub pricing : ModelPricing
  pub pricing_version : Text

-- A step is the key of its model.
pub record LlmRoutePlan : Type 0 where
  pub name : Text
  pub steps : List Text
  pub max_attempts : ℕ

pub record ResolvedLlmRoute : Type 0 where
  pub name : Text
  pub registrations : List LlmModelRegistration

-- The messages of the `ValueError`.
pub data RouteError : Type 0 where
  unknown_route_or_model : Text → RouteError
  missing_capabilities : Text → RouteError

-- A dictionary, as the list of its items.
abbrev pub Dict {ℓ} : Type ℓ → Type ℓ
Dict A = List (Text × A)

unfoldable pub get_item {ℓ} : {A : Type ℓ} → Text → Dict A → Result RouteError A
get_item key [] = err (RouteError.unknown_route_or_model key)
get_item key ((k, a) ∷ items) =
    let rest = get_item key items in if same_text k key then ok a else rest

-- What a plan is validated for when it is made.
abbrev pub is_plan : LlmRoutePlan → Bool
is_plan plan = leb 1 plan.max_attempts && leb plan.max_attempts (length plan.steps)

unfoldable pub registrations_of :
    Dict LlmModelRegistration → List Text → Result RouteError (List LlmModelRegistration)
unfolding get_item
registrations_of registrations [] = ok []
registrations_of registrations (step ∷ steps) = do
  first ← get_item step registrations
  rest ← registrations_of registrations steps
  ok (first ∷ rest)

-- `required_capabilities - registration.capabilities` is empty.
abbrev pub is_capable : List Text → LlmModelRegistration → Bool
is_capable required r = all (λ c. any (same_text c) r.capabilities) required

unfoldable pub check_capabilities :
    List Text → List LlmModelRegistration → Result RouteError (Unit {0})
check_capabilities required [] = ok tt
check_capabilities required (r ∷ rs) =
    guard (is_capable required r) (RouteError.missing_capabilities r.name)
    >> check_capabilities required rs

unfoldable pub resolve :
    Dict LlmModelRegistration
    → Dict LlmRoutePlan
    → Text
    → List Text
    → Result RouteError ResolvedLlmRoute
unfolding get_item registrations_of check_capabilities
resolve registrations plans name required = do
  plan ← get_item name plans
  found ← registrations_of registrations (take plan.max_attempts plan.steps)
  check_capabilities required found
  ok (record { name = name; registrations = found })

-- In units of 10 ^ -12, to which the source rounds.
unfoldable pub estimate_cost : LlmModelRegistration → ℕ → ℕ → ℕ → ℕ → ℕ
estimate_cost r input output cache_read cache_write =
    input * r.pricing.input_per_million
    + output * r.pricing.output_per_million
    + cache_read * r.pricing.cache_read_per_million
    + cache_write * r.pricing.cache_write_per_million

registrations_of-length :
    (registrations : Dict LlmModelRegistration) (steps : List Text)
    (found : List LlmModelRegistration)
    → registrations_of registrations steps ≡ ok found
    → length found ≡ length steps
unfolding registrations_of
registrations_of-length registrations [] found h = ground arith
registrations_of-length registrations (step ∷ steps) found h =
    elim (Result-cases (get_item step registrations)) [
      | inr (e, missing) ↦ absurd (ground arith)
      | inl (first, there) ↦ elim (Result-cases (registrations_of registrations steps)) [
        | inr (e, missing) ↦ absurd (ground arith)
        | inl (rest, others) ↦
            let own : first ∷ rest ≡ found = ground arith in
            subst (λ f. length f ≡ length (step ∷ steps)) own
              (ap suc (registrations_of-length registrations steps rest others))
      ]
    ]

checked-capable :
    (required : List Text) (rs : List LlmModelRegistration)
    → check_capabilities required rs ≡ ok tt
    → All (λ r. is_capable required r ≡ true) rs
unfolding check_capabilities
checked-capable required [] h = tt
checked-capable required (r ∷ rs) h = elim (Bool-cases (is_capable required r)) [
  | inr lacking ↦ absurd (ground arith)
  | inl capable ↦ (capable, checked-capable required rs (ground arith))
]

-- A route of a valid plan that resolves tries exactly the number of attempts of the plan, at least one
-- and at most one for each step, and every registration on it has all capabilities that are required.
pub resolve-bounds :
    (registrations : Dict LlmModelRegistration) (plans : Dict LlmRoutePlan) (name : Text)
    (required : List Text) (plan : LlmRoutePlan) (route : ResolvedLlmRoute)
    → get_item name plans ≡ ok plan
    → is_plan plan ≡ true
    → resolve registrations plans name required ≡ ok route
    → (length route.registrations ≡ plan.max_attempts)
      × (1 ≤ length route.registrations)
      × (length route.registrations ≤ length plan.steps)
      × All (λ r. is_capable required r ≡ true) route.registrations
unfolding resolve
resolve-bounds registrations plans name required plan route there proper h =
    let steps = take plan.max_attempts plan.steps in
    elim (Result-cases (registrations_of registrations steps)) [
      | inr (e, missing) ↦ absurd (ground arith)
      | inl (found, all_there) ↦ elim (Result-cases (check_capabilities required found)) [
        | inr (e, lacking) ↦ absurd (ground arith)
        | inl (tt, checked) ↦
            let own : found ≡ route.registrations = ground arith in
            let size = registrations_of-length registrations steps found all_there in
            let cut = length-take plan.max_attempts plan.steps in
            let long : length found ≡ plan.max_attempts = ground arith in
            subst
              (λ f.
                (length f ≡ plan.max_attempts)
                × (1 ≤ length f)
                × (length f ≤ length plan.steps)
                × All (λ r. is_capable required r ≡ true) f)
              own (long, ground arith, ground arith, checked-capable required found checked)
      ]
    ]
