-- ===== src/Outbox.antt =====
-- app/db/outbox.py: the transactional outbox. A table is the list of its rows, a transaction a
-- function on it; what raises is rolled back, so it returns no table. Times and durations count
-- microseconds.
pub mod Metadata
pub mod Category
pub mod Keys
pub mod Leases
pub mod Rows
pub mod Steps
pub mod Kept
pub mod Exclusive
use shiptawk_be.Prelude.{
  ℕ, zero, suc, ◌+◌, ◌≡◌, Bool, true, false, ◌&&◌, ◌||◌, not, String, Option, none, some, List, [],
  ◌∷◌, ◌++◌, map, length, take, keep, find, any, update, ltb, leb, ◌==◌, str_eq, is_id, sorted,
  if◌then◌else◌, Result, ok, err, guard, ◌>>=◌, ◌>>◌,
}
use shiptawk_be.Text.{Text, before_mark, collapse, strip}
use shiptawk_be.Idempotency.{DbError, InsertReplayResult, insert_or_replay}

pub data OutboxStatus : Type 0 where
  pending publishing published failed : OutboxStatus

abbrev pub is_pending : OutboxStatus → Bool
is_pending pending = true
is_pending _ = false

abbrev pub is_publishing : OutboxStatus → Bool
is_publishing publishing = true
is_publishing _ = false

-- `metadata_payload` is a validated document that no operation here reads.
pub record OutboxEvent : Type 0 where
  pub id : ℕ
  pub event_name : String
  pub schema_version : ℕ
  pub idempotency_key : String
  pub aggregate_id : Option ℕ
  pub workspace_id : Option ℕ
  pub product_id : Option ℕ
  pub metadata_payload : List (String × Text)
  pub status : OutboxStatus
  pub attempts : ℕ
  pub available_at : ℕ
  pub lease_expires_at : Option ℕ
  pub created_at : ℕ
  pub published_at : Option ℕ
  pub last_error_category : Option Text

abbrev pub Table : Type 0
Table = List OutboxEvent

-- The unique key of the table, and its primary key.
abbrev pub has_key : String → String → OutboxEvent → Bool
has_key name key e = str_eq e.event_name name && str_eq e.idempotency_key key

abbrev pub same_key : OutboxEvent → OutboxEvent → Bool
same_key a b = has_key a.event_name a.idempotency_key b

abbrev pub has_id : ℕ → OutboxEvent → Bool
has_id i e = e.id == i

-- The row that `enqueue_outbox_event` builds: the argument's own fields, and the four defaults.
abbrev pub fresh_row : ℕ → OutboxEvent → OutboxEvent
fresh_row now e = record e {
  status = pending;
  attempts = 0;
  created_at = now;
  lease_expires_at = none;
  published_at = none;
  last_error_category = none;
}

-- `event` carries the arguments of the call; a fresh identifier is the caller's. The database checks the
-- constraint `schema_version_positive` before it looks for a conflict.
unfoldable pub enqueue_outbox_event :
    Table → ℕ → OutboxEvent → Result DbError (InsertReplayResult OutboxEvent × Table)
unfolding insert_or_replay
enqueue_outbox_event rows now event =
    guard (leb 1 event.schema_version) DbError.integrity_error
    >> insert_or_replay same_key (λ a. has_id a.id) (fresh_row now event) rows

-- A comparison with a null lease is not true.
abbrev pub lease_expired : Option ℕ → ℕ → Bool
lease_expired none now = false
lease_expired (some t) now = leb t now

-- `workspace_id is None` means every workspace.
abbrev pub in_workspace : Option ℕ → OutboxEvent → Bool
in_workspace none e = true
in_workspace (some w) e = is_id e.workspace_id w

-- The `where` of the claim.
unfoldable pub claimable : ℕ → Option ℕ → OutboxEvent → Bool
claimable now workspace e =
    leb e.available_at now
    && (is_pending e.status || (is_publishing e.status && lease_expired e.lease_expires_at now))
    && in_workspace workspace e

-- `order_by(available_at, created_at, id)`.
unfoldable pub claimed_before : OutboxEvent → OutboxEvent → Bool
claimed_before a b =
    ltb a.available_at b.available_at
    || (a.available_at == b.available_at
        && (ltb a.created_at b.created_at || (a.created_at == b.created_at && ltb a.id b.id)))

unfoldable pub lease_row : ℕ → ℕ → OutboxEvent → OutboxEvent
lease_row now lease e = record e {
  status = publishing;
  lease_expires_at = some (now + lease);
  attempts = e.attempts + 1;
}

-- `locked` are the rows that other transactions hold: `skip_locked` passes them over.
unfoldable pub selected : (ℕ → Bool) → ℕ → ℕ → Option ℕ → Table → Table
selected locked limit now workspace rows =
    take limit
      (sorted claimed_before (keep (λ e. claimable now workspace e && not (locked e.id)) rows))

abbrev pub in_batch : Table → OutboxEvent → Bool
in_batch batch e = any (has_id e.id) batch

-- A duration of 0 stands for those that are not positive.
unfoldable pub claim_outbox_events :
    (ℕ → Bool) → Table → (limit lease now : ℕ) → Option ℕ → Result DbError (Table × Table)
claim_outbox_events locked rows limit lease now workspace =
    let batch = selected locked limit now workspace rows in
    if ltb limit 1 || leb lease 0
    then err DbError.value_error
    else ok (map (lease_row now lease) batch, update (in_batch batch) (lease_row now lease) rows)

abbrev pub require_publishing : Option OutboxEvent → Result DbError OutboxEvent
require_publishing none = err DbError.value_error
require_publishing (some e) = if is_publishing e.status then ok e else err DbError.value_error

-- `_publishing_event`, on the table that its read without a lock sees.
unfoldable pub publishing_event : Table → ℕ → Result DbError OutboxEvent
publishing_event rows event_id = require_publishing (find (has_id event_id) rows)

unfoldable pub publish_row : ℕ → OutboxEvent → OutboxEvent
publish_row at e = record e {
  status = published;
  published_at = some at;
  lease_expires_at = none;
  last_error_category = none;
}

-- `seen` is the table that the read sees, `rows` the one that the write at the end of the transaction
-- meets: other transactions may come between them.
unfoldable pub mark_outbox_event_published :
    Table → Table → ℕ → ℕ → Result DbError (OutboxEvent × Table)
mark_outbox_event_published seen rows event_id at = do
  event ← publishing_event seen event_id
  ok (publish_row at event, update (has_id event_id) (publish_row at) rows)

abbrev pub or_unknown : Text → Text
or_unknown [] = b'u' ∷ b'n' ∷ b'k' ∷ b'n' ∷ b'o' ∷ b'w' ∷ b'n' ∷ []
or_unknown cs = cs

-- `lower` is the runtime's Unicode lower-casing.
module _ (lower : Text → Text) where
  -- `_sanitize_error_category`
  unfoldable pub sanitize_error_category : Text → Text
  sanitize_error_category category =
      or_unknown (take 64 (strip b'_' (collapse false (lower (before_mark b':' category)))))

  -- What a release writes, where its read saw so many attempts.
  unfoldable pub release_row : Text → ℕ → ℕ → ℕ → OutboxEvent → OutboxEvent
  release_row category available max_attempts attempts e = record e {
    status = if leb max_attempts attempts then failed else pending;
    available_at = available;
    lease_expires_at = none;
    last_error_category = some (sanitize_error_category category);
  }

  unfoldable pub release_outbox_event_for_retry :
      Table → Table → ℕ → Text → (available max_attempts : ℕ) → Result DbError (OutboxEvent × Table)
  release_outbox_event_for_retry seen rows event_id category available max_attempts = do
    guard (leb 1 max_attempts) DbError.value_error
    event ← publishing_event seen event_id
    ok (
      release_row category available max_attempts event.attempts event,
      update (has_id event_id) (release_row category available max_attempts event.attempts) rows,
    )
