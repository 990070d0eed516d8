-- ===== src/Llm/Rows.antt =====
-- What a row of an execution keeps.
use shiptawk_be.Prelude.{ℕ, ◌≡◌, ◌≤◌, refl, Bool, true, false, Option, none, some, arith, ◌==◌}
use shiptawk_be.Text.{Text}
use shiptawk_be.Llm.{
  LlmExecution, Status, completed, Category, RowKey, is_running, can_acquire, give_lease,
  can_reopen, reopen_row, is_fenced, count_attempt, can_renew, extend_lease, complete_row, fail_row,
}

abbrev pub is_completed : Status → Bool
is_completed completed = true
is_completed _ = false

abbrev pub is_some {ℓ} : {A : Type ℓ} → Option A → Bool
is_some none = false
is_some (some a) = true

-- A row has its three lease columns exactly while it runs, and a completed row has its output.
pub record IsSound (e : LlmExecution) : Type 0 where
  pub owner : is_some e.lease_owner ≡ is_running e.status
  pub token : is_some e.lease_token ≡ is_running e.status
  pub expires : is_some e.lease_expires_at ≡ is_running e.status
  pub output : is_completed e.status ≡ true → is_some e.validated_output_snapshot ≡ true

-- The columns that identify an execution and its request.
pub record SameRequest (e f : LlmExecution) : Type 0 where
  pub id : f.id ≡ e.id
  pub workspace_id : f.workspace_id ≡ e.workspace_id
  pub product_id : f.product_id ≡ e.product_id
  pub use_case : f.use_case ≡ e.use_case
  pub idempotency_key : f.idempotency_key ≡ e.idempotency_key
  pub request_fingerprint : f.request_fingerprint ≡ e.request_fingerprint

-- A write of the rows that pass a test: it keeps the request, hits no completed row, and does not
-- lower the number of attempts.
pub record IsWrite (test : LlmExecution → Bool) (f : LlmExecution → LlmExecution) : Type 0 where
  pub request : (e : LlmExecution) → SameRequest e (f e)
  pub sound : (e : LlmExecution) → IsSound e → test e ≡ true → IsSound (f e)
  pub open_only : (e : LlmExecution) → IsSound e → test e ≡ true → is_completed e.status ≡ false
  pub attempts : (e : LlmExecution) → e.attempt_count ≤ (f e).attempt_count

-- The writes touch other columns than these.
kept :
    (e f : LlmExecution)
    → f.id ≡ e.id
    → f.workspace_id ≡ e.workspace_id
    → f.product_id ≡ e.product_id
    → f.use_case ≡ e.use_case
    → f.idempotency_key ≡ e.idempotency_key
    → f.request_fingerprint ≡ e.request_fingerprint
    → SameRequest e f
kept e f a b c d g h = record {
  id = a;
  workspace_id = b;
  product_id = c;
  use_case = d;
  idempotency_key = g;
  request_fingerprint = h;
}

pub acquire-IsWrite :
    (k : RowKey) (owner : Text) (token now expires : ℕ)
    → IsWrite (can_acquire k now) (give_lease owner token expires)
acquire-IsWrite k owner token now expires = record {
  request = λ e. kept e (give_lease owner token expires e) refl refl refl refl refl refl;
  sound = λ e s hit. record {
    owner = refl;
    token = refl;
    expires = refl;
    output = λ h. absurd (ground arith);
  };
  open_only = λ e s hit. ground arith;
  attempts = λ e. omega arith;
}

pub reopen-IsWrite : (k : RowKey) → IsWrite (can_reopen k) reopen_row
reopen-IsWrite k = record {
  request = λ e. kept e (reopen_row e) refl refl refl refl refl refl;
  sound = λ e s hit.
      let o = s.owner in
      let t = s.token in
      let x = s.expires in
      record {
        owner = ground arith;
        token = ground arith;
        expires = ground arith;
        output = λ h. absurd (ground arith);
      };
  open_only = λ e s hit. ground arith;
  attempts = λ e. omega arith;
}

fenced-running :
    (k : RowKey) (token now : ℕ) (e : LlmExecution)
    → IsSound e
    → is_fenced k token now e ≡ true
    → is_running e.status ≡ true
fenced-running k token now e s hit = let t = s.token in ground arith

pub allocate-IsWrite : (k : RowKey) (token now : ℕ) → IsWrite (is_fenced k token now) count_attempt
allocate-IsWrite k token now = record {
  request = λ e. kept e (count_attempt e) refl refl refl refl refl refl;
  sound = λ e s hit. record {
    owner = s.owner;
    token = s.token;
    expires = s.expires;
    output = s.output;
  };
  open_only = λ e s hit. let r = fenced-running k token now e s hit in ground arith;
  attempts = λ e. omega arith;
}

pub renew-IsWrite :
    (k : RowKey) (token now expires : ℕ) → IsWrite (can_renew k token now) (extend_lease expires)
renew-IsWrite k token now expires = record {
  request = λ e. kept e (extend_lease expires e) refl refl refl refl refl refl;
  sound = λ e s hit. record {
    owner = s.owner;
    token = s.token;
    expires = ground arith;
    output = s.output;
  };
  open_only = λ e s hit. ground arith;
  attempts = λ e. omega arith;
}

pub complete-IsWrite :
    (k : RowKey) (token now fingerprint : ℕ) (output : Text)
    → IsWrite (is_fenced k token now) (complete_row fingerprint output)
complete-IsWrite k token now fingerprint output = record {
  request = λ e. kept e (complete_row fingerprint output e) refl refl refl refl refl refl;
  sound = λ e s hit. record { owner = refl; token = refl; expires = refl; output = λ h. refl };
  open_only = λ e s hit. let r = fenced-running k token now e s hit in ground arith;
  attempts = λ e. omega arith;
}

pub fail-IsWrite :
    (k : RowKey) (token now : ℕ) (category : Category)
    → IsWrite (is_fenced k token now) (fail_row category)
fail-IsWrite k token now category = record {
  request = λ e. kept e (fail_row category e) refl refl refl refl refl refl;
  sound = λ e s hit. record {
    owner = refl;
    token = refl;
    expires = refl;
    output = λ h. absurd (ground arith);
  };
  open_only = λ e s hit. let r = fenced-running k token now e s hit in ground arith;
  attempts = λ e. omega arith;
}

abbrev pub has_id : ℕ → LlmExecution → Bool
has_id i e = e.id == i
