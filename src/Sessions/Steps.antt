-- ===== src/Sessions/Steps.antt =====
-- The transactions on the table of sessions in any order.
use shiptawk_be.Prelude.{
  ℕ, ◌+◌, ◌≡◌, sym, subst, ◌⊎◌, inl, inr, Bool, true, false, ◌&&◌, ◌||◌, Option, none, some, List,
  [], ◌∷◌, ◌++◌, arith, find, any, update, leb, ok, Option-cases, Bool-cases,
}
use shiptawk_be.Sessions.{
  AuthSession, Table, User, Membership, Workspace, Device, Drawn, is_set, has_hash, has_id,
  in_family, seen_in_family, get_session_by_refresh_hash, mark_session_family_compromised,
  revoke_session_by_refresh_hash, get_user_by_id, compromise, revoke, retire, move_to, movable,
  is_open_of, is_workspace, is_member, new_session, session_clashes, create_refresh_session_record,
  replace_session, rotate_refresh_session, revoke_refresh_session, revoke_auth_session,
  revoke_user_sessions, switch_session_workspace,
}
use shiptawk_be.Sessions.Rows.{
  IsSound, IsRetiring, is_live_in, compromise-IsRetiring, revoke-IsRetiring, move_to-IsRetiring,
  new_session-IsSound,
}

-- The shapes of a change of the table.
pub data Change (rows : Table) : Table → Type 0 where
  same : Change rows rows
  rewritten :
      (q : AuthSession → Bool) (f : AuthSession → AuthSession)
      → IsRetiring f
      → Change rows (update q f rows)
  started :
      (row : AuthSession)
      → IsSound row
      → any (in_family row.family_id) rows ≡ false
      → Change rows (rows ++ row ∷ [])
  rotated :
      (row existing : AuthSession) (h now i : ℕ)
      → IsSound row
      → find (has_hash h) rows ≡ some existing
      → is_live_in row.family_id existing ≡ true
      → Change rows (update (has_id existing.id) (retire now i) (rows ++ row ∷ []))

module _ (hash_token : ℕ → ℕ) (days : ℕ) where
  -- One committed transaction. The family of a new login is a fresh `uuid4()`, that no row has.
  pub data Step (rows : Table) : Table → Type 0 where
    login :
        (drawn : Drawn) (now user workspace : ℕ) (device : Device) (s : AuthSession) {after : Table}
        → any (in_family drawn.family_id) rows ≡ false
        → create_refresh_session_record hash_token days drawn now user workspace device none 0 rows
          ≡ ok (s, after)
        → Step rows after
    rotate :
        (users : List User) (drawn : Drawn) (now : ℕ) (device : Device) (unseen : ℕ → Bool)
        (token : ℕ)
        → Step rows
            ((rotate_refresh_session hash_token days users drawn now device unseen token rows).1)
    logout : (now token : ℕ) → Step rows (revoke_refresh_session hash_token now token rows)
    revoke_row : (now : ℕ) (s : AuthSession) → Step rows (revoke_auth_session now s rows)
    delete_account : (now user : ℕ) → Step rows (revoke_user_sessions now user rows)
    switch_workspace :
        (workspaces : List Workspace) (members : List Membership) (user session workspace now : ℕ)
        {after : Table}
        → switch_session_workspace workspaces members user session workspace now rows ≡ ok after
        → Step rows after

  pub data Reach : Table → Type 0 where
    start : Reach []
    next : {rows after : Table} → Reach rows → Step rows after → Reach after

  -- What comes after a table.
  pub data Later (rows : Table) : Table → Type 0 where
    here : Later rows rows
    later : {mid after : Table} → Later rows mid → Step mid after → Later rows after

  pub create-ok :
      (drawn : Drawn) (now user workspace : ℕ) (device : Device) (family : Option ℕ) (g : ℕ)
      (rows after : Table) (s : AuthSession)
      → create_refresh_session_record hash_token days drawn now user workspace device family g rows
        ≡ ok (s, after)
      → (s ≡ new_session hash_token days drawn now user workspace device family g)
        × (any (session_clashes s) rows ≡ false)
        × (after ≡ rows ++ s ∷ [])
  unfolding create_refresh_session_record
  create-ok drawn now user workspace device family g rows after s h =
      let row = new_session hash_token days drawn now user workspace device family g in
      elim (Bool-cases (any (session_clashes row) rows)) [
        | inl clash ↦ absurd (ground arith)
        | inr free ↦
            let own : row ≡ s = ground arith in
            (
              sym own,
              subst (λ x. any (session_clashes x) rows ≡ false) own free,
              subst (λ x. after ≡ rows ++ x ∷ []) own (ground arith),
            )
      ]

  -- The row that a rotation adds.
  abbrev pub replacement_of : Drawn → ℕ → Device → AuthSession → User → AuthSession
  replacement_of drawn now device existing user =
      new_session hash_token days drawn now user.id existing.current_workspace_id device
        (some existing.family_id) (existing.generation + 1)

  -- The table after a rotation, by the way it ends.
  pub data Rotated (users : List User) (drawn : Drawn) (now : ℕ) (device : Device)
      (unseen : ℕ → Bool) (token : ℕ) (rows : Table) : Table → Type 0 where
    unchanged : Rotated users drawn now device unseen token rows rows
    reused :
        (s : AuthSession)
        → find (has_hash (hash_token token)) rows ≡ some s
        → Rotated users drawn now device unseen token rows
            (update (seen_in_family s.family_id unseen) (compromise now) rows)
    replaced :
        (s : AuthSession) (user : User)
        → find (has_hash (hash_token token)) rows ≡ some s
        → is_set s.revoked_at ≡ false
        → is_set s.replaced_by_id ≡ false
        → Rotated users drawn now device unseen token rows (
            update
              (has_id s.id)
              (retire now drawn.id)
              (rows ++ replacement_of drawn now device s user ∷ []))

  replace_session-table :
      (drawn : Drawn) (now : ℕ) (device : Device) (s : AuthSession) (user : User) (rows : Table)
      → ((replace_session hash_token days drawn now device s user rows).1 ≡ rows)
        ⊎ ((replace_session hash_token days drawn now device s user rows).1
            ≡ update
                (has_id s.id)
                (retire now drawn.id)
                (rows ++ replacement_of drawn now device s user ∷ []))
  unfolding replace_session create_refresh_session_record
  replace_session-table drawn now device s user rows =
      elim (Bool-cases (any (session_clashes (replacement_of drawn now device s user)) rows)) [
        | inl clash ↦ inl (ground arith)
        | inr free ↦ inr (ground arith)
      ]

  found_row-Rotated :
      (users : List User) (drawn : Drawn) (now : ℕ) (device : Device) (unseen : ℕ → Bool)
      (token : ℕ) (rows : Table) (s : AuthSession)
      → find (has_hash (hash_token token)) rows ≡ some s
      → Rotated users drawn now device unseen token rows
          ((rotate_refresh_session hash_token days users drawn now device unseen token rows).1)
  unfolding rotate_refresh_session get_session_by_refresh_hash get_user_by_id
      mark_session_family_compromised
  found_row-Rotated users drawn now device unseen token rows s found =
      let R = Rotated users drawn now device unseen token rows in
      elim (Bool-cases (is_set s.deleted_at || leb s.expires_at now)) [
        | inl dead ↦ subst R (ground arith) unchanged
        | inr usable ↦ elim (Bool-cases (is_set s.revoked_at || is_set s.replaced_by_id)) [
          | inl spent ↦ subst R (ground arith) (reused s found)
          | inr live ↦ elim (Option-cases (get_user_by_id s.user_id users)) [
            | inl missing ↦ subst R (ground arith) unchanged
            | inr (user, there) ↦ elim (Bool-cases user.is_active) [
              | inr inactive ↦ subst R (ground arith) unchanged
              | inl active ↦ elim (replace_session-table drawn now device s user rows) [
                | inl kept ↦ subst R (ground arith) unchanged
                | inr done ↦
                    subst R (ground arith) (replaced s user found (ground arith) (ground arith))
              ]
            ]
          ]
        ]
      ]

  -- A rotation leaves the table, or marks the family of the session it found, or replaces that
  -- session.
  pub rotate-Rotated :
      (users : List User) (drawn : Drawn) (now : ℕ) (device : Device) (unseen : ℕ → Bool)
      (token : ℕ) (rows : Table)
      → Rotated users drawn now device unseen token rows
          ((rotate_refresh_session hash_token days users drawn now device unseen token rows).1)
  unfolding rotate_refresh_session get_session_by_refresh_hash get_user_by_id
      mark_session_family_compromised replace_session create_refresh_session_record
  rotate-Rotated users drawn now device unseen token rows =
      elim (Option-cases (find (has_hash (hash_token token)) rows)) [
        | inl gone ↦
            subst (Rotated users drawn now device unseen token rows) (ground arith) unchanged
        | inr (s, found) ↦ found_row-Rotated users drawn now device unseen token rows s found
      ]

  Rotated-Change :
      (users : List User) (drawn : Drawn) (now : ℕ) (device : Device) (unseen : ℕ → Bool)
      (token : ℕ) (rows : Table) {after : Table}
      → Rotated users drawn now device unseen token rows after
      → Change rows after
  Rotated-Change users drawn now device unseen token rows unchanged = Change.same
  Rotated-Change users drawn now device unseen token rows (reused s found) =
      Change.rewritten (seen_in_family s.family_id unseen) (compromise now)
        (compromise-IsRetiring now)
  Rotated-Change users drawn now device unseen token rows
        (replaced s user found unrevoked unreplaced) =
      Change.rotated (replacement_of drawn now device s user) s (hash_token token) now drawn.id
        (new_session-IsSound hash_token days drawn now user.id s.current_workspace_id device
          (some s.family_id) (s.generation + 1))
        found (ground arith)

  pub Step-Change : {rows after : Table} → Step rows after → Change rows after
  unfolding switch_session_workspace revoke_refresh_session revoke_session_by_refresh_hash
      revoke_auth_session revoke_user_sessions
  Step-Change {rows} {after} (login drawn now user workspace device s fresh made) =
      let (own, _, grown) = create-ok drawn now user workspace device none 0 rows after s made in
      subst (Change rows) (sym grown) (
        Change.started s
          (subst IsSound (sym own)
            (new_session-IsSound hash_token days drawn now user workspace device none 0))
          (rw own fresh))
  Step-Change {rows} (rotate users drawn now device unseen token) =
      Rotated-Change users drawn now device unseen token rows
        (rotate-Rotated users drawn now device unseen token rows)
  Step-Change {rows} (logout now token) =
      Change.rewritten (has_hash (hash_token token)) (revoke now) (revoke-IsRetiring now)
  Step-Change {rows} (revoke_row now s) =
      Change.rewritten (has_id s.id) (revoke now) (revoke-IsRetiring now)
  Step-Change {rows} (delete_account now user) =
      Change.rewritten (is_open_of user) (revoke now) (revoke-IsRetiring now)
  Step-Change {rows} {after} (switch_workspace workspaces members user session workspace now e) =
      let m = any (is_workspace workspace) workspaces && any (is_member workspace user) members in
      let moved : update (movable m user session now) (move_to workspace) rows ≡ after =
        ground arith in
      subst (Change rows) moved (
        Change.rewritten (movable m user session now) (move_to workspace)
          (move_to-IsRetiring workspace))
