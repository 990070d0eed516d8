-- ===== src/Llm.antt =====
-- The executions of app/modules/llm/models and the transactions of
-- app/modules/llm/repositories/llm_execution_repository.py.
pub mod Route
pub mod Execute
pub mod Rows
pub mod Steps
pub mod Frozen
pub mod Fencing
pub mod Parts
pub mod Loop
pub mod Completes
pub mod Once
pub mod Replays
pub mod Last
pub mod Decides
use shiptawk_be.Prelude.{
  ℕ, Bool, true, false, ◌+◌, ◌&&◌, ◌||◌, Option, none, some, List, [], ◌∷◌, ◌++◌, find, any, count,
  update, ltb, leb, ◌==◌, is_id, Result, ok, err, if◌then◌else◌,
}
use shiptawk_be.Text.{Text, same_text}

pub data Status : Type 0 where
  pending running completed failed : Status

-- The names of the classes of `LLMProviderError` and its subclasses.
pub data Category : Type 0 where
  provider_error transient_error permanent_error invalid_response_error : Category
  output_validation_error : Category

-- Identifiers, tokens, times and fingerprints are numbers; a document is its text.
pub record LlmExecution : Type 0 where
  pub id : ℕ
  pub workspace_id : ℕ
  pub product_id : ℕ
  pub use_case : Text
  pub idempotency_key : Text
  pub request_fingerprint : ℕ
  pub route_name : Text
  pub status : Status
  pub attempt_count : ℕ
  pub lease_owner : Option Text
  pub lease_token : Option ℕ
  pub lease_expires_at : Option ℕ
  pub result_fingerprint : Option ℕ
  pub validated_output_snapshot : Option Text
  pub failure_category : Option Category

abbrev pub Table : Type 0
Table = List LlmExecution

-- Identifies a row in its tenant.
pub record RowKey : Type 0 where
  pub id : ℕ
  pub workspace_id : ℕ
  pub product_id : ℕ

abbrev pub key_of : LlmExecution → RowKey
key_of e = record { id = e.id; workspace_id = e.workspace_id; product_id = e.product_id }

abbrev pub is_row : RowKey → LlmExecution → Bool
is_row k e = e.id == k.id && e.workspace_id == k.workspace_id && e.product_id == k.product_id

-- The query of `get_by_key`.
abbrev pub has_key : ℕ → ℕ → Text → Text → LlmExecution → Bool
has_key workspace product use_case key e =
    e.workspace_id == workspace
    && e.product_id == product
    && same_text e.use_case use_case
    && same_text e.idempotency_key key

unfoldable pub get_by_key : ℕ → ℕ → Text → Text → Table → Option LlmExecution
get_by_key workspace product use_case key rows = find (has_key workspace product use_case key) rows

-- The primary key and the unique key of the tenant.
abbrev pub execution_clashes : LlmExecution → LlmExecution → Bool
execution_clashes new e =
    e.id == new.id || has_key new.workspace_id new.product_id new.use_case new.idempotency_key e

-- `none` is an `IntegrityError`.
unfoldable pub flush_execution : LlmExecution → Table → Option Table
flush_execution new rows =
    if any (execution_clashes new) rows then none else some (rows ++ new ∷ [])

abbrev pub is_unfinished : Status → Bool
is_unfinished pending = true
is_unfinished running = true
is_unfinished _ = false

abbrev pub is_running : Status → Bool
is_running running = true
is_running _ = false

abbrev pub is_failed : Status → Bool
is_failed failed = true
is_failed _ = false

abbrev pub is_transient : Option Category → Bool
is_transient (some transient_error) = true
is_transient _ = false

-- `lease_expires_at IS NULL OR lease_expires_at <= now`
abbrev pub is_free : Option ℕ → ℕ → Bool
is_free none now = true
is_free (some t) now = leb t now

-- `lease_expires_at > now()`
abbrev pub is_held : Option ℕ → ℕ → Bool
is_held none now = false
is_held (some t) now = ltb now t

abbrev pub can_acquire : RowKey → ℕ → LlmExecution → Bool
can_acquire k now e = is_row k e && is_unfinished e.status && is_free e.lease_expires_at now

abbrev pub give_lease : Text → ℕ → ℕ → LlmExecution → LlmExecution
give_lease owner token expires e = record e {
  status = running;
  lease_owner = some owner;
  lease_token = some token;
  lease_expires_at = some expires;
}

-- The writes answer whether they hit one row.
unfoldable pub acquire_lease : RowKey → Text → ℕ → ℕ → ℕ → Table → Bool × Table
acquire_lease k owner token now expires rows = (
  count (can_acquire k now) rows == 1,
  update (can_acquire k now) (give_lease owner token expires) rows,
)

abbrev pub can_reopen : RowKey → LlmExecution → Bool
can_reopen k e = is_row k e && is_failed e.status && is_transient e.failure_category

abbrev pub reopen_row : LlmExecution → LlmExecution
reopen_row e = record e { status = pending; failure_category = none }

unfoldable pub reopen_transient_failure : RowKey → Table → Bool × Table
reopen_transient_failure k rows =
    (count (can_reopen k) rows == 1, update (can_reopen k) reopen_row rows)

-- The fence: the row still has this lease, and it has not run out.
abbrev pub is_fenced : RowKey → ℕ → ℕ → LlmExecution → Bool
is_fenced k token now e = is_row k e && is_id e.lease_token token && is_held e.lease_expires_at now

abbrev pub count_attempt : LlmExecution → LlmExecution
count_attempt e = record e { attempt_count = e.attempt_count + 1 }

unfoldable pub allocate_attempt : RowKey → ℕ → ℕ → Table → Option ℕ × Table
allocate_attempt k token now rows = elim (find (is_fenced k token now) rows) [
  | none ↦ (none, rows)
  | some e ↦ (some (e.attempt_count + 1), update (is_fenced k token now) count_attempt rows)
]

abbrev pub can_renew : RowKey → ℕ → ℕ → LlmExecution → Bool
can_renew k token now e = is_running e.status && is_fenced k token now e

abbrev pub extend_lease : ℕ → LlmExecution → LlmExecution
extend_lease expires e = record e { lease_expires_at = some expires }

unfoldable pub renew_lease : RowKey → ℕ → ℕ → ℕ → Table → Bool × Table
renew_lease k token now expires rows = (
  count (can_renew k token now) rows == 1,
  update (can_renew k token now) (extend_lease expires) rows,
)

-- The values of the two calls of `fence_update`: a completed execution, and a failed one.
abbrev pub complete_row : ℕ → Text → LlmExecution → LlmExecution
complete_row fingerprint output e = record e {
  status = completed;
  result_fingerprint = some fingerprint;
  validated_output_snapshot = some output;
  lease_owner = none;
  lease_token = none;
  lease_expires_at = none;
}

abbrev pub fail_row : Category → LlmExecution → LlmExecution
fail_row category e = record e {
  status = failed;
  failure_category = some category;
  lease_owner = none;
  lease_token = none;
  lease_expires_at = none;
}

unfoldable pub fence_update : RowKey → ℕ → ℕ → (LlmExecution → LlmExecution) → Table → Bool × Table
fence_update k token now values rows =
    (count (is_fenced k token now) rows == 1, update (is_fenced k token now) values rows)
