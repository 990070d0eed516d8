-- ===== src/Llm/Execute/Attempt.antt =====
-- The records of an execution's attempts, what a provider answers, and how an attempt is written and
-- how it fails.
use shiptawk_be.Prelude.{
  ℕ, ◌≡◌, refl, ◌⊎◌, inl, inr, Bool, true, false, ◌&&◌, Option, none, some, List, [], ◌∷◌, ◌++◌,
  any, all, ◌==◌, Result, err, if◌then◌else◌,
}
use shiptawk_be.Text.{Text, same_text}
use shiptawk_be.Llm.{Category, transient_error, Table, RowKey, fail_row, fence_update}
use shiptawk_be.Llm.Route.{LlmModelRegistration, RouteError}

pub data LlmError : Type 0 where
  route_error : RouteError → LlmError
  idempotency_conflict in_progress lease_lost failed_non_retryable : LlmError
  snapshot_missing integrity_error no_attempt : LlmError
  provider_failed : Category → LlmError

pub data AttemptStatus : Type 0 where
  attempt_completed attempt_failed : AttemptStatus

-- An attempt, less what it copies from the telemetry of the provider.
pub record LlmExecutionAttempt : Type 0 where
  pub workspace_id : ℕ
  pub product_id : ℕ
  pub execution_id : ℕ
  pub attempt_number : ℕ
  pub lease_token : ℕ
  pub provider : Text
  pub model : Text
  pub status : AttemptStatus
  pub refusal : Bool
  pub estimated_cost : Option ℕ
  pub pricing_version : Text
  pub error_category : Option Category

pub record Db : Type 0 where
  pub executions : Table
  pub attempts : List LlmExecutionAttempt

-- What a provider returns, as far as the service reads it.
pub record Generated : Type 0 where
  pub output : Option Text
  pub refusal : Bool
  pub estimated_cost : Option ℕ
  pub input_tokens : Option ℕ
  pub output_tokens : Option ℕ
  pub cache_read_tokens : ℕ
  pub cache_write_tokens : ℕ

pub data Answer : Type 0 where
  raised : Category → Answer
  generated : Generated → Answer

pub Answer-cases :
    (a : Answer) → ((c : Category) × (a ≡ raised c)) ⊎ ((g : Generated) × (a ≡ generated g))
Answer-cases (raised c) = inl (c, refl)
Answer-cases (generated g) = inr (g, refl)

-- What has happened by the end of a provider's call: its answer, the tables after the renewals of the
-- heartbeat and the transactions of other workers, whether a renewal was refused, and the time.
pub record Reply : Type 0 where
  pub answer : Answer
  pub db : Db
  pub lost : Bool
  pub time : ℕ

pub record Request : Type 0 where
  pub workspace_id : ℕ
  pub product_id : ℕ
  pub use_case : Text
  pub idempotency_key : Text
  pub route_name : Text
  pub envelope : Text
  pub lease_owner : Text

pub record PersistedLlmExecutionResult : Type 0 where
  pub execution_id : ℕ
  pub validated_output : Text
  pub replayed : Bool

abbrev pub is_transient_error : Category → Bool
is_transient_error transient_error = true
is_transient_error _ = false

abbrev pub or_zero : Option ℕ → ℕ
or_zero none = 0
or_zero (some n) = n

-- `64 * 1024`
abbrev pub max_validated_output_bytes : ℕ
max_validated_output_bytes = 65536

-- `==` of registrations, whose capabilities are a set.
abbrev pub same_set : List Text → List Text → Bool
same_set a b = all (λ x. any (same_text x) b) a && all (λ x. any (same_text x) a) b

abbrev pub same_registration : LlmModelRegistration → LlmModelRegistration → Bool
same_registration a b =
    same_text a.name b.name
    && same_text a.provider b.provider
    && same_text a.model b.model
    && same_set a.capabilities b.capabilities
    && a.pricing.input_per_million == b.pricing.input_per_million
    && a.pricing.output_per_million == b.pricing.output_per_million
    && a.pricing.cache_read_per_million == b.pricing.cache_read_per_million
    && a.pricing.cache_write_per_million == b.pricing.cache_write_per_million
    && same_text a.pricing_version b.pricing_version

-- `route.registrations[-1]`
abbrev pub is_last : LlmModelRegistration → List LlmModelRegistration → Bool
is_last r [] = false
is_last r (x ∷ []) = same_registration r x
is_last r (x ∷ (y ∷ ys)) = is_last r (y ∷ ys)

abbrev pub same_attempt : LlmExecutionAttempt → LlmExecutionAttempt → Bool
same_attempt new a =
    a.workspace_id == new.workspace_id
    && a.product_id == new.product_id
    && a.execution_id == new.execution_id
    && a.attempt_number == new.attempt_number

-- `_record_attempt`; `none` is an `IntegrityError`.
unfoldable pub record_attempt : LlmExecutionAttempt → Db → Option Db
record_attempt a db =
    if any (same_attempt a) db.attempts
    then none
    else some (record db { attempts = db.attempts ++ a ∷ [] })

-- `_finish_failed`, and the error that is raised after it.
unfoldable pub finish_failed {ℓ} :
    {A : Type ℓ} → RowKey → ℕ → ℕ → Category → Db → Result LlmError A × Db
finish_failed k token now category db =
    let written = fence_update k token now (fail_row category) db.executions in
    elim (written.0) [
      | true ↦ (err (LlmError.provider_failed category), record db { executions = written.1 })
      | false ↦ (err LlmError.lease_lost, db)
    ]

abbrev pub attempt_of :
    RowKey
    → ℕ
    → ℕ
    → LlmModelRegistration
    → AttemptStatus
    → Bool
    → Option ℕ
    → Option Category
    → LlmExecutionAttempt
attempt_of k token number r status refusal cost category = record {
  workspace_id = k.workspace_id;
  product_id = k.product_id;
  execution_id = k.id;
  attempt_number = number;
  lease_token = token;
  provider = r.provider;
  model = r.model;
  status = status;
  refusal = refusal;
  estimated_cost = cost;
  pricing_version = r.pricing_version;
  error_category = category;
}

-- A failed attempt that ends the execution.
unfoldable pub abandon {ℓ} :
    {A : Type ℓ} → RowKey → ℕ → ℕ → LlmExecutionAttempt → Category → Db → Result LlmError A × Db
unfolding record_attempt finish_failed
abandon k token now attempt category db = elim (record_attempt attempt db) [
  | none ↦ (err LlmError.integrity_error, db)
  | some recorded ↦ finish_failed k token now category recorded
]
