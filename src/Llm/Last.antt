-- ===== src/Llm/Last.antt =====
-- The test for the last registration of a route.
use shiptawk_be.Prelude.{
  ◌≡◌, refl, ap, Bool, true, List, [], ◌∷◌, ◌++◌, arith, any, all, All, All-any_self,
}
use shiptawk_be.Text.{Text, same_text, same_text_self}
use shiptawk_be.Llm.Route.{LlmModelRegistration}
use shiptawk_be.Llm.Execute.{same_registration, is_last}

all-of_All : (p : Text → Bool) (xs : List Text) → All (λ x. p x ≡ true) xs → all p xs ≡ true
all-of_All p [] h = refl
all-of_All p (x ∷ xs) h = let here = h.0 in ground (arith, all-of_All p xs h.1)

same_set_self : (xs : List Text) → all (λ x. any (same_text x) xs) xs ≡ true
same_set_self xs =
    all-of_All (λ x. any (same_text x) xs) xs (All-any_self same_text same_text_self xs)

same_registration_self : (r : LlmModelRegistration) → same_registration r r ≡ true
same_registration_self r = ground (
  arith,
  same_text_self r.name,
  same_text_self r.provider,
  same_text_self r.model,
  same_text_self r.pricing_version,
  same_set_self r.capabilities,
)

pub is_last-append :
    (r : LlmModelRegistration) (before : List LlmModelRegistration)
    → is_last r (before ++ r ∷ []) ≡ true
is_last-append r [] = same_registration_self r
is_last-append r (x ∷ []) = same_registration_self r
is_last-append r (x ∷ (y ∷ ys)) = is_last-append r (y ∷ ys)

pub append_one :
    (before : List LlmModelRegistration) (r : LlmModelRegistration) (rs : List LlmModelRegistration)
    → (before ++ r ∷ []) ++ rs ≡ before ++ (r ∷ rs)
append_one [] r rs = refl
append_one (x ∷ before) r rs = ap (◌∷◌ x) (append_one before r rs)
