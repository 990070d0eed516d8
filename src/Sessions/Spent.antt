-- ===== src/Sessions/Spent.antt =====
-- What a rotation returns, and what becomes of its token.
use shiptawk_be.Prelude.{
  ℕ, ◌≡◌, refl, ◌⊎◌, Bool, true, ◌||◌, ◌&&◌, not, ◌==◌, ==_iff, ==_self, some, List, [], ◌∷◌, ◌++◌,
  arith, find, update, err, find-append_some, find-update-some, Bool-cases, inl, inr, leb, All,
  All-append, All-update, All-mono, if◌then◌else◌,
}
use shiptawk_be.Sessions.{
  SessionError, AuthSession, Table, User, Device, Drawn, is_set, has_hash, has_id, retire, is_bound,
  is_open_session, get_session_by_refresh_hash, refresh_session_is_active, rotate_refresh_session,
}
use shiptawk_be.Sessions.Rows.{IsSound, IsRetiring, retire-IsRetiring}
use shiptawk_be.Sessions.Steps.{
  Change, same, rewritten, started, rotated, Reach, start, next, Later, here, later, Step-Change,
}

-- The token with this hash is of a revoked session.
pub record IsSpent (h : ℕ) (rows : Table) : Type 0 where
  pub row : AuthSession
  pub found : find (has_hash h) rows ≡ some row
  pub revoked : is_set row.revoked_at ≡ true

rewritten-IsSpent :
    (h : ℕ) (q : AuthSession → Bool) (f : AuthSession → AuthSession) (rows : Table)
    → IsRetiring f
    → IsSpent h rows
    → IsSpent h (update q f rows)
rewritten-IsSpent h q f rows retiring v = record {
  row = if q v.row then f v.row else v.row;
  found =
      find-update-some (has_hash h) q f (λ s. rw (retiring.same_hash s) refl) rows v.row v.found;
  revoked = elim (Bool-cases (q v.row)) [
    | inl hit ↦ rw hit (retiring.revoked v.row v.revoked)
    | inr miss ↦ rw miss (v.revoked)
  ];
}

added-IsSpent : (h : ℕ) (rows new : Table) → IsSpent h rows → IsSpent h (rows ++ new)
added-IsSpent h rows new v = record {
  row = v.row;
  found = find-append_some (has_hash h) rows new v.found;
  revoked = v.revoked;
}

Change-IsSpent : (h : ℕ) {rows after : Table} → Change rows after → IsSpent h rows → IsSpent h after
Change-IsSpent h same v = v
Change-IsSpent h {rows} (rewritten q f retiring) v = rewritten-IsSpent h q f rows retiring v
Change-IsSpent h {rows} (started row sound fresh) v = added-IsSpent h rows (row ∷ []) v
Change-IsSpent h {rows} (rotated row s g now i sound found live) v =
    rewritten-IsSpent h (has_id s.id) (retire now i) (rows ++ row ∷ []) (retire-IsRetiring now i)
      (added-IsSpent h rows (row ∷ []) v)

Change-IsSound : {rows after : Table} → Change rows after → All IsSound rows → All IsSound after
Change-IsSound same v = v
Change-IsSound {rows} (rewritten q f retiring) v =
    All-update IsSound q f rows (All-mono _ _ (λ s sound _. retiring.sound s sound) rows v)
      (All-mono _ _ (λ s sound _. sound) rows v)
Change-IsSound {rows} (started row sound fresh) v = All-append IsSound rows (row ∷ []) v (sound, tt)
Change-IsSound {rows} (rotated row s g now i sound found live) v =
    let grown = All-append IsSound rows (row ∷ []) v (sound, tt) in
    All-update IsSound (has_id s.id) (retire now i) (rows ++ row ∷ [])
      (All-mono _ _ (λ x kept _. (retire-IsRetiring now i).sound x kept) (rows ++ row ∷ []) grown)
      (All-mono _ _ (λ x kept _. kept) (rows ++ row ∷ []) grown)

active-bound :
    (now : ℕ) (s : AuthSession)
    → IsSound s
    → is_open_session s.user_id s.id now s ≡ refresh_session_is_active now s
unfolding refresh_session_is_active
active-bound now s sound = elim (Bool-cases (is_set s.replaced_by_id)) [
  | inl replaced ↦ let r = sound.replaced replaced in ground arith
  | inr unreplaced ↦ ground arith
]

module _ (hash_token : ℕ → ℕ) (days : ℕ) where
  -- In every reachable table a session is revoked if it is replaced, and its user agent, address and
  -- device name are no longer than their columns.
  pub Reach-IsSound : {rows : Table} → Reach hash_token days rows → All IsSound rows
  Reach-IsSound start = tt
  Reach-IsSound (next reached step) =
      Change-IsSound (Step-Change hash_token days step) (Reach-IsSound reached)

  -- In every reachable table, the query of the browser endpoint accepts a session for a user exactly if
  -- the session is the user's, the refresh endpoint's test accepts the session, and the user is active
  -- and not deleted, although the query does not look at the replacement.
  pub is_active-is_bound :
      {rows : Table} (user : User) (now : ℕ)
      → Reach hash_token days rows
      → All
          (λ s. is_bound user s.id now s ≡ (
            s.user_id == user.id
            && refresh_session_is_active now s
            && user.is_active
            && not (is_set user.deleted_at)))
          rows
  is_active-is_bound {rows} user now reached =
      All-mono _ _ (λ s sound. accepts s sound) rows (Reach-IsSound reached)
    where
      accepts :
          (s : AuthSession)
          → IsSound s
          → is_bound user s.id now s ≡ (
              s.user_id == user.id
              && refresh_session_is_active now s
              && user.is_active
              && not (is_set user.deleted_at))
      accepts s sound =
          let same_test = active-bound now s sound in
          ground (arith, ==_iff s.user_id user.id, ==_self s.id, ==_self s.user_id)

  pub Later-IsSpent :
      (h : ℕ) {rows after : Table}
      → Later hash_token days rows after
      → IsSpent h rows
      → IsSpent h after
  Later-IsSpent h here v = v
  Later-IsSpent h (later before step) v =
      Change-IsSpent h (Step-Change hash_token days step) (Later-IsSpent h before v)

  pub spent-refused :
      (users : List User) (drawn : Drawn) (now : ℕ) (device : Device) (unseen : ℕ → Bool)
      (token : ℕ) (rows : Table)
      → IsSpent (hash_token token) rows
      → ((rotate_refresh_session hash_token days users drawn now device unseen token rows).0
          ≡ err SessionError.invalid_refresh_token)
        ⊎ ((rotate_refresh_session hash_token days users drawn now device unseen token rows).0
            ≡ err SessionError.refresh_token_reuse)
  unfolding rotate_refresh_session get_session_by_refresh_hash
  spent-refused users drawn now device unseen token rows v =
      let s = v.row in
      let found = v.found in
      let revoked = v.revoked in
      elim (Bool-cases (is_set s.deleted_at || leb s.expires_at now)) [
        | inl dead ↦ inl (ground arith)
        | inr usable ↦ inr (ground arith)
      ]
