-- ===== src/Outbox/Metadata.antt =====
-- `OutboxMetadata.validate_metadata`.
pub mod Safe
use shiptawk_be.Prelude.{
  ℕ, ◌≡◌, ◌⊎◌, inl, inr, Bool, true, false, not, ◌&&◌, ◌||◌, List, [], ◌∷◌, ◌++◌, arith, any, keep,
  length, ltb, ◌==◌, Result, ok, guard, ◌>>◌, All, Bool-cases, Result-cases,
}
use shiptawk_be.Text.{Text, has_part, has_part-append}
use shiptawk_be.Idempotency.{DbError}

-- Numbers as they are written: no test reads them.
pub data Scalar : Type 0 where
  string number : Text → Scalar
  boolean : Bool → Scalar
  null : Scalar

pub data MetadataValue : Type 0 where
  scalar : Scalar → MetadataValue
  scalars : List Scalar → MetadataValue

abbrev pub sensitive_key_parts : List Text
sensitive_key_parts =
    (b'b' ∷ b'o' ∷ b'd' ∷ b'y' ∷ [])
    ∷ (b'c' ∷ b'o' ∷ b'n' ∷ b't' ∷ b'e' ∷ b'n' ∷ b't' ∷ [])
    ∷ (b'c' ∷ b'r' ∷ b'e' ∷ b'd' ∷ b'e' ∷ b'n' ∷ b't' ∷ b'i' ∷ b'a' ∷ b'l' ∷ [])
    ∷ (b'p' ∷ b'a' ∷ b's' ∷ b's' ∷ b'w' ∷ b'o' ∷ b'r' ∷ b'd' ∷ [])
    ∷ (b'p' ∷ b'a' ∷ b'y' ∷ b'l' ∷ b'o' ∷ b'a' ∷ b'd' ∷ [])
    ∷ (b'p' ∷ b'r' ∷ b'o' ∷ b'm' ∷ b'p' ∷ b't' ∷ [])
    ∷ (b's' ∷ b'e' ∷ b'c' ∷ b'r' ∷ b'e' ∷ b't' ∷ [])
    ∷ (b's' ∷ b'o' ∷ b'u' ∷ b'r' ∷ b'c' ∷ b'e' ∷ [])
    ∷ (b't' ∷ b'o' ∷ b'k' ∷ b'e' ∷ b'n' ∷ [])
    ∷ []

abbrev pub is_joint : ℕ → Bool
is_joint c = c == b'_' || c == b'-'

-- `endswith("id")`
abbrev pub ends_with_id : Text → Bool
ends_with_id [] = false
ends_with_id (c ∷ []) = false
ends_with_id (c ∷ (d ∷ [])) = c == b'i' && d == b'd'
ends_with_id (c ∷ (d ∷ (e ∷ rest))) = ends_with_id (d ∷ (e ∷ rest))

abbrev pub max_string : ℕ
max_string = 2048

abbrev pub is_long : Scalar → Bool
is_long (string t) = ltb max_string (length t)
is_long _ = false

abbrev pub items_of : MetadataValue → List Scalar
items_of (scalar s) = s ∷ []
items_of (scalars ss) = ss

-- `lower` is `str.lower`.
module _ (lower : Text → Text) where
  unfoldable pub normalized_key : Text → Text
  normalized_key key = keep (λ c. not (is_joint c)) (lower key)

  unfoldable pub check_entry : Text → MetadataValue → Result DbError (Unit {0})
  unfolding normalized_key
  check_entry key item = do
    guard
        (ends_with_id (normalized_key key)
          || not (any (λ part. has_part part (normalized_key key)) sensitive_key_parts))
        DbError.value_error
    guard (not (any is_long (items_of item))) DbError.value_error

  -- It returns the metadata as they are, or raises.
  unfoldable pub validate_metadata : List (Text × MetadataValue) → Result DbError (Unit {0})
  unfolding check_entry
  validate_metadata [] = ok tt
  validate_metadata ((key, item) ∷ rest) = check_entry key item >> validate_metadata rest
