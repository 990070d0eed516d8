-- ===== src/Examples/Labelling.antt =====
-- Metadata of an event.
use shiptawk_be.Prelude.{◌≡◌, refl, List, [], ◌∷◌, ok, All}
use shiptawk_be.Text.{Text}
use shiptawk_be.Outbox.Metadata.{
  MetadataValue, Scalar, normalized_key, check_entry, validate_metadata,
}
use shiptawk_be.Outbox.Metadata.Safe.{IsSafe, validate_metadata-IsSafe}

abbrev as_given : Text → Text
as_given t = t

abbrev entries : List (Text × MetadataValue)
entries =
    (
      b't' ∷ b'o' ∷ b'k' ∷ b'e' ∷ b'n' ∷ b'_' ∷ b'i' ∷ b'd' ∷ [],
      MetadataValue.scalar (Scalar.string (b'x' ∷ [])),
    )
    ∷ (b'k' ∷ b'i' ∷ b'n' ∷ b'd' ∷ [], MetadataValue.scalars (Scalar.null ∷ []))
    ∷ []

accepted : validate_metadata as_given entries ≡ ok tt
unfolding validate_metadata check_entry normalized_key
accepted = refl

validate_metadata-IsSafe_example : All (λ e. IsSafe as_given e.0 e.1) entries
validate_metadata-IsSafe_example = validate_metadata-IsSafe as_given entries accepted
