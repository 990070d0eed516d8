-- ===== src/Sessions.antt =====
-- app/modules/identity/services/sessions.py with repositories/sessions.py: the refresh sessions of
-- the browsers, and the updates of app/modules/identity/services/browser_oauth.py to their table.
pub mod Rows
pub mod Steps
pub mod Single
pub mod Spent
pub mod Rotation
use shiptawk_be.Prelude.{
  ℕ, Bool, true, false, not, ◌+◌, ◌*◌, ◌&&◌, ◌||◌, Option, none, some, List, [], ◌∷◌, ◌++◌, take,
  find, any, update, ltb, leb, ◌==◌, Result, ok, err, if◌then◌else◌,
}
use shiptawk_be.Text.{Text}

-- The codes of `UnauthorizedError` and `ForbiddenError`, and what a refused insert raises.
pub data SessionError : Type 0 where
  invalid_refresh_token refresh_token_reuse inactive_user workspace_access_denied : SessionError
  refused_session : SessionError

-- Identifiers, tokens, hashes and times are numbers.
pub record AuthSession : Type 0 where
  pub id : ℕ
  pub user_id : ℕ
  pub refresh_token_hash : ℕ
  pub expires_at : ℕ
  pub user_agent : Option Text
  pub ip_address : Option Text
  pub device_name : Option Text
  pub revoked_at : Option ℕ
  pub last_used_at : Option ℕ
  pub family_id : ℕ
  pub generation : ℕ
  pub replaced_by_id : Option ℕ
  pub compromised_at : Option ℕ
  pub current_workspace_id : ℕ
  pub deleted_at : Option ℕ

abbrev pub Table : Type 0
Table = List AuthSession

-- The columns of a user that the sessions read.
pub record User : Type 0 where
  pub id : ℕ
  pub is_active : Bool
  pub deleted_at : Option ℕ

pub record Membership : Type 0 where
  pub workspace_id : ℕ
  pub user_id : ℕ
  pub is_active : Bool

pub record Workspace : Type 0 where
  pub id : ℕ
  pub deleted_at : Option ℕ

-- What a request says of its browser.
pub record Device : Type 0 where
  pub user_agent : Option Text
  pub ip_address : Option Text
  pub device_name : Option Text

-- The values that one call draws: `generate_token()`, and `uuid4()` twice.
pub record Drawn : Type 0 where
  pub token : ℕ
  pub id : ℕ
  pub family_id : ℕ

abbrev pub max_user_agent_length : ℕ
max_user_agent_length = 512

abbrev pub max_ip_address_length : ℕ
max_ip_address_length = 45

abbrev pub max_device_name_length : ℕ
max_device_name_length = 120

abbrev pub is_set : Option ℕ → Bool
is_set none = false
is_set (some t) = true

abbrev pub or_drawn : Option ℕ → ℕ → ℕ
or_drawn none d = d
or_drawn (some i) d = i

unfoldable pub truncate : Option Text → ℕ → Option Text
truncate none max_length = none
truncate (some value) max_length = some (take max_length value)

abbrev pub has_hash : ℕ → AuthSession → Bool
has_hash h s = s.refresh_token_hash == h

abbrev pub has_id : ℕ → AuthSession → Bool
has_id i s = s.id == i

abbrev pub in_family : ℕ → AuthSession → Bool
in_family f s = s.family_id == f

unfoldable pub get_session_by_refresh_hash : ℕ → Table → Option AuthSession
get_session_by_refresh_hash h rows = find (has_hash h) rows

abbrev pub compromise : ℕ → AuthSession → AuthSession
compromise now s = record s { revoked_at = some now; compromised_at = some now }

-- A row of the family that the update sees. `unseen` are the rows that were not committed when it
-- began: a rotation that runs at the same time inserts one, and the update waits for no insertion.
abbrev pub seen_in_family : ℕ → (ℕ → Bool) → AuthSession → Bool
seen_in_family family unseen s = in_family family s && not (unseen s.id)

unfoldable pub mark_session_family_compromised : ℕ → ℕ → (ℕ → Bool) → Table → Table
mark_session_family_compromised family now unseen rows =
    update (seen_in_family family unseen) (compromise now) rows

abbrev pub revoke : ℕ → AuthSession → AuthSession
revoke now s = record s { revoked_at = some now }

unfoldable pub revoke_session_by_refresh_hash : ℕ → ℕ → Table → Table
revoke_session_by_refresh_hash h now rows = update (has_hash h) (revoke now) rows

abbrev pub is_user : ℕ → User → Bool
is_user i u = u.id == i && not (is_set u.deleted_at)

unfoldable pub get_user_by_id : ℕ → List User → Option User
get_user_by_id i users = find (is_user i) users

-- `refresh_session_is_active` of a row.
unfoldable pub refresh_session_is_active : ℕ → AuthSession → Bool
refresh_session_is_active now s =
    if is_set s.deleted_at || is_set s.revoked_at
    then false
    else ltb now s.expires_at && not (is_set s.replaced_by_id)

-- The conditions on the session that `get_bound_session` and `switch_session_workspace` share.
abbrev pub is_open_session : ℕ → ℕ → ℕ → AuthSession → Bool
is_open_session user session now s =
    s.id == session
    && s.user_id == user
    && not (is_set s.revoked_at)
    && not (is_set s.deleted_at)
    && ltb now s.expires_at

-- The `where` of `get_bound_session`, on a user and a session.
abbrev pub is_bound : User → ℕ → ℕ → AuthSession → Bool
is_bound user session now s =
    is_open_session user.id session now s && user.is_active && not (is_set user.deleted_at)

-- The row that a rotation leaves behind.
abbrev pub retire : ℕ → ℕ → AuthSession → AuthSession
retire now replacement s = record s {
  last_used_at = some now;
  revoked_at = some now;
  replaced_by_id = some replacement;
}

-- The primary key, and the unique index on the hash.
abbrev pub session_clashes : AuthSession → AuthSession → Bool
session_clashes new s = s.id == new.id || s.refresh_token_hash == new.refresh_token_hash

-- `hash_token` is SHA-256; `days` is the setting `refresh_token_expire_days`.
module _ (hash_token : ℕ → ℕ) (days : ℕ) where
  abbrev pub new_session : Drawn → ℕ → ℕ → ℕ → Device → Option ℕ → ℕ → AuthSession
  new_session drawn now user workspace device family generation = record {
    id = drawn.id;
    user_id = user;
    refresh_token_hash = hash_token drawn.token;
    expires_at = now + days * 86400;
    user_agent = truncate device.user_agent max_user_agent_length;
    ip_address = truncate device.ip_address max_ip_address_length;
    device_name = truncate device.device_name max_device_name_length;
    revoked_at = none;
    last_used_at = none;
    family_id = or_drawn family drawn.family_id;
    generation = generation;
    replaced_by_id = none;
    compromised_at = none;
    current_workspace_id = workspace;
    deleted_at = none;
  }

  unfoldable pub create_refresh_session_record :
      Drawn → ℕ → ℕ → ℕ → Device → Option ℕ → ℕ → Table → Result SessionError (AuthSession × Table)
  create_refresh_session_record drawn now user workspace device family generation rows =
      let row = new_session drawn now user workspace device family generation in
      if any (session_clashes row) rows then err refused_session else ok (row, rows ++ row ∷ [])

  -- The end of a rotation, for a usable session of an active user.
  unfoldable pub replace_session :
      Drawn
      → ℕ
      → Device
      → AuthSession
      → User
      → Table
      → Result SessionError (User × ℕ × AuthSession) × Table
  unfolding create_refresh_session_record
  replace_session drawn now device existing user rows =
      elim (create_refresh_session_record drawn now user.id existing.current_workspace_id device
        (some existing.family_id) (existing.generation + 1) rows) [
          | err e ↦ (err e, rows)
          | ok (replacement, added) ↦ (
            ok (user, drawn.token, replacement),
            update (has_id existing.id) (retire now replacement.id) added,
          )
        ]

  -- The result or the exception, with the table as it is committed: a reuse commits the mark on the
  -- family, less the rows it does not see, before it raises.
  unfoldable pub rotate_refresh_session :
      List User
      → Drawn
      → ℕ
      → Device
      → (ℕ → Bool)
      → ℕ
      → Table
      → Result SessionError (User × ℕ × AuthSession) × Table
  unfolding get_session_by_refresh_hash get_user_by_id mark_session_family_compromised
      replace_session
  rotate_refresh_session users drawn now device unseen refresh_token rows =
      elim (get_session_by_refresh_hash (hash_token refresh_token) rows) [
        | none ↦ (err invalid_refresh_token, rows)
        | some existing ↦
            if is_set existing.deleted_at || leb existing.expires_at now
            then (err invalid_refresh_token, rows)
            else if is_set existing.revoked_at || is_set existing.replaced_by_id
            then (
              err refresh_token_reuse,
              mark_session_family_compromised existing.family_id now unseen rows,
            )
            else elim (get_user_by_id existing.user_id users) [
              | none ↦ (err invalid_refresh_token, rows)
              | some user ↦
                  if not user.is_active
                  then (err inactive_user, rows)
                  else replace_session drawn now device existing user rows
            ]
      ]

unfoldable pub revoke_refresh_session : (ℕ → ℕ) → ℕ → ℕ → Table → Table
unfolding revoke_session_by_refresh_hash
revoke_refresh_session hash_token now refresh_token rows =
    revoke_session_by_refresh_hash (hash_token refresh_token) now rows

unfoldable pub revoke_auth_session : ℕ → AuthSession → Table → Table
revoke_auth_session now session rows = update (has_id session.id) (revoke now) rows

-- The first update of `delete_user_account`.
abbrev pub is_open_of : ℕ → AuthSession → Bool
is_open_of user s = s.user_id == user && not (is_set s.revoked_at)

unfoldable pub revoke_user_sessions : ℕ → ℕ → Table → Table
revoke_user_sessions now user rows = update (is_open_of user) (revoke now) rows

-- The subquery `membership_exists` of `switch_session_workspace`.
abbrev pub is_workspace : ℕ → Workspace → Bool
is_workspace i w = w.id == i && not (is_set w.deleted_at)

abbrev pub is_member : ℕ → ℕ → Membership → Bool
is_member workspace user m = m.workspace_id == workspace && m.user_id == user && m.is_active

abbrev pub move_to : ℕ → AuthSession → AuthSession
move_to workspace s = record s { current_workspace_id = workspace }

abbrev pub movable : Bool → ℕ → ℕ → ℕ → AuthSession → Bool
movable member user session now s = is_open_session user session now s && member

-- Its update; the answer is read by `get_bound_session` afterwards.
unfoldable pub switch_session_workspace :
    List Workspace → List Membership → ℕ → ℕ → ℕ → ℕ → Table → Result SessionError Table
switch_session_workspace workspaces members user session workspace now rows =
    let member =
      any (is_workspace workspace) workspaces && any (is_member workspace user) members in
    if any (movable member user session now) rows
    then ok (update (movable member user session now) (move_to workspace) rows)
    else err workspace_access_denied
