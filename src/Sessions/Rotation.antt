-- ===== src/Sessions/Rotation.antt =====
-- What a rotation returns, and what becomes of its token.
use shiptawk_be.Prelude.{
  ℕ, ◌≡◌, ◌+◌, ◌*◌, ◌<◌, refl, ap, ◌∙◌, sym, subst, Bool, true, false, some, List, [], ◌∷◌, ◌++◌,
  arith, find, find-holds, find-miss, any, update, ok, find-append, find-update-some, miss-of_any,
  ==_self, Option-cases, Bool-cases, inl, inr, leb,
}
use shiptawk_be.Sessions.{
  AuthSession, Table, User, Device, Drawn, has_hash, has_id, is_user, retire,
  get_session_by_refresh_hash, get_user_by_id, refresh_session_is_active, session_clashes,
  create_refresh_session_record, replace_session, rotate_refresh_session,
}
use shiptawk_be.Sessions.Steps.{replacement_of}

module _ (hash_token : ℕ → ℕ) (days : ℕ) where
  -- What a rotation that returns has done.
  record Replaced (users : List User) (drawn : Drawn) (now : ℕ) (device : Device)
      (unseen : ℕ → Bool) (token : ℕ) (rows : Table) (user : User) (issued : ℕ) (new : AuthSession)
      (after : Table) : Type 0 where
    old : AuthSession
    found : find (has_hash (hash_token token)) rows ≡ some old
    usable : refresh_session_is_active now old ≡ true
    known : get_user_by_id old.user_id users ≡ some user
    active : user.is_active ≡ true
    token_is : issued ≡ drawn.token
    new_is : new ≡ replacement_of hash_token days drawn now device old user
    free : any (session_clashes new) rows ≡ false
    after_is : after ≡ update (has_id old.id) (retire now drawn.id) (rows ++ new ∷ [])

  replace_session-ok :
      (drawn : Drawn) (now : ℕ) (device : Device) (old : AuthSession) (user user2 : User)
      (rows after : Table) (issued : ℕ) (new : AuthSession)
      → replace_session hash_token days drawn now device old user rows
        ≡ (ok (user2, issued, new), after)
      → (user ≡ user2)
        × (issued ≡ drawn.token)
        × (new ≡ replacement_of hash_token days drawn now device old user)
        × (any (session_clashes new) rows ≡ false)
        × (after ≡ update (has_id old.id) (retire now drawn.id) (rows ++ new ∷ []))
  unfolding replace_session create_refresh_session_record
  replace_session-ok drawn now device old user user2 rows after issued new h =
      let row = replacement_of hash_token days drawn now device old user in
      elim (Bool-cases (any (session_clashes row) rows)) [
        | inl clash ↦ absurd (ground arith)
        | inr free ↦
            let own : row ≡ new = ground arith in
            (
              ground arith,
              ground arith,
              sym own,
              subst (λ x. any (session_clashes x) rows ≡ false) own free,
              subst (λ x. after ≡ update (has_id old.id) (retire now drawn.id) (rows ++ x ∷ [])) own
                  (ground arith),
            )
      ]

  rotate-ok :
      (users : List User) (drawn : Drawn) (now : ℕ) (device : Device) (unseen : ℕ → Bool)
      (token : ℕ) (rows : Table) (user : User) (issued : ℕ) (new : AuthSession) (after : Table)
      → rotate_refresh_session hash_token days users drawn now device unseen token rows
        ≡ (ok (user, issued, new), after)
      → Replaced users drawn now device unseen token rows user issued new after
  unfolding rotate_refresh_session get_session_by_refresh_hash refresh_session_is_active
  rotate-ok users drawn now device unseen token rows user issued new after h =
      elim (Option-cases (find (has_hash (hash_token token)) rows)) [
        | inl gone ↦ absurd (ground arith)
        | inr (old, found) ↦ elim (Option-cases (get_user_by_id old.user_id users)) [
          | inl missing ↦ absurd (ground arith)
          | inr (u, there) ↦
              let done : replace_session hash_token days drawn now device old u rows
                  ≡ (ok (user, issued, new), after) =
                ground arith in
              let (who, t, n, free, a) =
                replace_session-ok drawn now device old u user rows after issued new done in
              record {
                old = old;
                found = found;
                usable = ground arith;
                known = there ∙ ap some who;
                active = subst (λ x. x.is_active ≡ true) who (ground arith);
                token_is = t;
                new_is =
                    subst (λ x. new ≡ replacement_of hash_token days drawn now device old x) who n;
                free = free;
                after_is = a;
              }
        ]
      ]

  issued-found :
      (users : List User) (drawn : Drawn) (now : ℕ) (device : Device) (unseen : ℕ → Bool)
      (token : ℕ) (rows : Table) (user : User) (issued : ℕ) (new : AuthSession) (after : Table)
      → Replaced users drawn now device unseen token rows user issued new after
      → find (has_hash (hash_token issued)) after ≡ some new
  issued-found users drawn now device unseen token rows user issued new after r =
      let s = r.old in
      let hashed : hash_token issued ≡ new.refresh_token_hash = rw (r.token_is, r.new_is) refl in
      let apart =
        miss-of_any (session_clashes new) (has_hash (hash_token token)) rows s r.free r.found in
      let own : find (has_hash new.refresh_token_hash) (rows ++ new ∷ []) ≡ some new =
        find-append (has_hash new.refresh_token_hash) rows (new ∷ []) (
          find-miss (has_hash new.refresh_token_hash) (session_clashes new) (λ x hit. ground arith)
            rows r.free)
        ∙ rw (==_self new.refresh_token_hash) refl in
      rw (hashed, r.after_is)
        (find-update-some (has_hash new.refresh_token_hash) (has_id s.id) (retire now drawn.id)
            (λ x. refl) (rows ++ new ∷ []) new own
          ∙ ground arith)

  -- The token that a rotation returns works in its turn: before it expires, with the same users and a
  -- fresh identifier and token, a rotation with it returns the same user and a session of the same
  -- family and of the next generation.
  pub rotate_refresh_session-chains :
      (users : List User) (drawn again : Drawn) (now at : ℕ) (device other : Device)
      (unseen passed_by : ℕ → Bool) (token : ℕ) (rows : Table) (user : User) (issued : ℕ)
      (new : AuthSession) (after : Table)
      → rotate_refresh_session hash_token days users drawn now device unseen token rows
        ≡ (ok (user, issued, new), after)
      → at < now + days * 86400
      → any (session_clashes (replacement_of hash_token days again at other new user)) after ≡ false
      → (next_one : AuthSession) × (final : Table) × (rotate_refresh_session hash_token days users
            again at other passed_by issued after
          ≡ (ok (user, again.token, next_one), final))
        × (next_one.family_id ≡ new.family_id)
        × (next_one.generation ≡ new.generation + 1)
  unfolding rotate_refresh_session get_session_by_refresh_hash get_user_by_id replace_session
      create_refresh_session_record
  rotate_refresh_session-chains users drawn again now at device other unseen passed_by token rows
        user issued new after h early free =
      let r = rotate-ok users drawn now device unseen token rows user issued new after h in
      let there = issued-found users drawn now device unseen token rows user issued new after r in
      let n = r.new_is in
      let is_same : is_user r.old.user_id user ≡ true =
        find-holds (is_user r.old.user_id) users {a = user} r.known in
      let owner : new.user_id ≡ r.old.user_id = ground arith in
      let known : get_user_by_id new.user_id users ≡ some user = rw owner (r.known) in
      let active = r.active in
      let unexpired : leb new.expires_at at ≡ false = ground arith in
      (
        replacement_of hash_token days again at other new user,
        update (has_id new.id) (retire at again.id)
            (after ++ replacement_of hash_token days again at other new user ∷ []),
        ground arith,
        refl,
        refl,
      )
