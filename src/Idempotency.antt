-- ===== src/Idempotency.antt =====
-- app/db/idempotency.py: insert a row, or return the row that owns the unique key.
use shiptawk_be.Prelude.{
  Bool, true, false, none, some, List, [], ◌∷◌, ◌++◌, Result, ok, err, find, any, if◌then◌else◌,
}

-- What the database and the functions over it raise.
pub data DbError : Type 0 where
  value_error integrity_error : DbError

pub record InsertReplayResult {ℓ} (A : Type ℓ) : Type ℓ where
  pub value : A
  pub inserted : Bool

-- `ON CONFLICT (key) DO NOTHING RETURNING *`, then the select of the owner. A clash on another
-- unique index of the table still raises.
unfoldable pub insert_or_replay {ℓ} :
    {Row : Type ℓ}
    → (same_key clash : Row → Row → Bool) → Row
    → List Row
    → Result DbError (InsertReplayResult Row × List Row)
insert_or_replay same_key clash row rows = elim (find (same_key row) rows) [
  | some owner ↦ ok (record { value = owner; inserted = false }, rows)
  | none ↦
      if any (clash row) rows
      then err DbError.integrity_error
      else ok (record { value = row; inserted = true }, rows ++ row ∷ [])
]
