-- ===== src/OauthTransactions/Steps.antt =====
-- The transactions on the table of OAuth states in any order.
use shiptawk_be.Prelude.{
  ℕ, ◌≡◌, ◌≤◌, refl, ◌∙◌, sym, subst, Bool, true, false, Option, some, [], ◌∷◌, ◌++◌, arith, find,
  any, update, count, count-append_one, count-update, ok, Result-cases, Bool-cases, Option-cases,
  inl, inr, All, All-append, All-update, All-mono, All-of_found, any-update, any-append,
  any-of_found, find-holds,
}
use shiptawk_be.Text.{Text}
use shiptawk_be.OauthTransactions.{
  Binding, Created, OauthTransaction, Table, SplitUrl, Drawn, is_unset, has_state, matches,
  matches_actor, spend, validate_return_path, new_transaction, create, consume, consume_for_actor,
}

-- A change of the table: nothing, a row with a new state, or rows marked as consumed.
pub data Change (rows : Table) : Table → Type 0 where
  same : Change rows rows
  added :
      (row : OauthTransaction)
      → any (has_state row.state_hash) rows ≡ false
      → Change rows (rows ++ row ∷ [])
  spent :
      (q : OauthTransaction → Bool) (now actor : ℕ) → Change rows (update q (spend now actor) rows)

-- A state names at most one row.
abbrev pub IsUnique : Table → Type 0
IsUnique rows = (h : ℕ) → count (has_state h) rows ≤ 1

-- The row with this state is known, and consumed.
pub record IsUsed (h : ℕ) (rows : Table) : Type 0 where
  pub known : any (has_state h) rows ≡ true
  pub used : All (λ t. has_state h t ≡ true → is_unset t.consumed_at ≡ false) rows

none_before :
    (row : OauthTransaction) (rows : Table)
    → any (has_state row.state_hash) rows ≡ false
    → count (has_state row.state_hash) rows ≡ 0
none_before row [] free = refl
none_before row (t ∷ rows) free = ground (arith, none_before row rows)

Change-IsUnique : {rows after : Table} → Change rows after → IsUnique rows → IsUnique after
Change-IsUnique same unique h = unique h
Change-IsUnique {rows} (added row free) unique h =
    count-append_one (has_state h) rows row
      (λ hit.
        let own : row.state_hash ≡ h = ground arith in
        subst (λ k. count (has_state k) rows ≡ 0) own (none_before row rows free))
      (unique h)
Change-IsUnique {rows} (spent q now actor) unique h =
    omega (arith, count-update (has_state h) q (spend now actor) (λ t. refl) rows, unique h)

Change-IsUsed : (h : ℕ) {rows after : Table} → Change rows after → IsUsed h rows → IsUsed h after
Change-IsUsed h same v = v
Change-IsUsed h {rows} (added row free) v = record {
  known = any-append (has_state h) rows (row ∷ []) ∙ rw (v.known) refl;
  used = All-append _ rows (row ∷ []) v.used (
    (λ hit.
        let own : row.state_hash ≡ h = ground arith in
        let absent : any (has_state h) rows ≡ false =
          subst (λ k. any (has_state k) rows ≡ false) own free in
        let known = v.known in absurd (ground arith)),
    tt,
  );
}
Change-IsUsed h {rows} (spent q now actor) v = record {
  known = any-update (has_state h) q (spend now actor) (λ t. refl) rows ∙ v.known;
  used =
      All-update _ q (spend now actor) rows (All-mono _ _ (λ t kept hit own. refl) rows v.used)
        (All-mono _ _ (λ t kept miss. kept) rows v.used);
}

-- Marking the row that was found by its state marks every row with that state.
pub spent-IsUsed :
    (h now actor : ℕ) (test : OauthTransaction → Bool) (rows : Table) (row : OauthTransaction)
    → IsUnique rows
    → ((t : OauthTransaction) → test t ≡ true → has_state h t ≡ true)
    → find test rows ≡ some row
    → IsUsed h (update test (spend now actor) rows)
spent-IsUsed h now actor test rows row unique by_state found =
    let hit : test row ≡ true = find-holds test rows found in
    let known = any-of_found test (has_state h) rows row found (by_state row hit) in
    let only = All-of_found (has_state h) test rows row (unique h) by_state found in
    record {
      known = any-update (has_state h) test (spend now actor) (λ t. refl) rows ∙ known;
      used =
          All-update _ test (spend now actor) rows
            (All-mono _ _ (λ t _ hit_t own_t. refl) rows only)
            (All-mono _ _ (λ t must miss own_t. absurd (let yes = must own_t in ground arith)) rows
              only);
    }

module _ (urlsplit : Text → SplitUrl) (hash_token : ℕ → ℕ) (encrypt : ℕ → Text → Text)
    (expire_after : ℕ) (decrypt : Text → Option Text) where
  -- One call of the service by any request.
  pub data Step (rows : Table) : Table → Type 0 where
    create_one :
        (b : Binding) (path redirect : Text) (drawn : Drawn) (now : ℕ) (made : Created)
        {after : Table}
        → create urlsplit hash_token encrypt expire_after b path redirect drawn now rows
          ≡ ok (made, after)
        → Step rows after
    consume_one :
        (b : Binding) (state now : ℕ) → Step rows ((consume hash_token decrypt b state now rows).1)
    consume_actor :
        (provider : Text) (actor state now : ℕ)
        → Step rows ((consume_for_actor hash_token decrypt provider actor state now rows).1)

  pub data Reach : Table → Type 0 where
    start : Reach []
    next : {rows after : Table} → Reach rows → Step rows after → Reach after

  -- What comes after a table.
  pub data Later (rows : Table) : Table → Type 0 where
    here : Later rows rows
    later : {mid after : Table} → Later rows mid → Step mid after → Later rows after

  pub create-ok :
      (b : Binding) (path redirect : Text) (drawn : Drawn) (now : ℕ) (rows after : Table)
      (made : Created)
      → create urlsplit hash_token encrypt expire_after b path redirect drawn now rows
        ≡ ok (made, after)
      → (made.state ≡ drawn.state)
        × (made.code_verifier ≡ drawn.verifier)
        × (any (has_state (hash_token drawn.state)) rows ≡ false)
        × (after
            ≡ rows
              ++ new_transaction urlsplit hash_token encrypt expire_after b path redirect drawn now
                ∷ [])
  unfolding create validate_return_path
  create-ok b path redirect drawn now rows after made h =
      elim (Result-cases (validate_return_path urlsplit path)) [
        | inr (e, refused) ↦ absurd (ground arith)
        | inl (safe, valid) ↦ elim (Bool-cases (any (has_state (hash_token drawn.state)) rows)) [
          | inl clash ↦ absurd (ground arith)
          | inr free ↦
              let own : path ≡ safe = ground arith in
              (
                ground arith,
                ground arith,
                free,
                subst
                    (λ p.
                      after
                      ≡ rows
                        ++ new_transaction urlsplit hash_token encrypt expire_after b p redirect
                            drawn now
                          ∷ [])
                    (sym own) (ground arith),
              )
        ]
      ]

  consume-Change :
      (b : Binding) (state now : ℕ) (rows : Table)
      → Change rows ((consume hash_token decrypt b state now rows).1)
  unfolding consume
  consume-Change b state now rows =
      let test = matches b (hash_token state) now in
      elim (Option-cases (find test rows)) [
        | inl gone ↦ subst (Change rows) (ground arith) Change.same
        | inr (row, found) ↦ elim (Option-cases (decrypt row.code_verifier_ciphertext)) [
          | inl broken ↦ subst (Change rows) (ground arith) (Change.spent test now b.actor_id)
          | inr (v, read) ↦ subst (Change rows) (ground arith) (Change.spent test now b.actor_id)
        ]
      ]

  consume_for_actor-Change :
      (provider : Text) (actor state now : ℕ) (rows : Table)
      → Change rows ((consume_for_actor hash_token decrypt provider actor state now rows).1)
  unfolding consume_for_actor
  consume_for_actor-Change provider actor state now rows =
      let test = matches_actor provider actor (hash_token state) now in
      elim (Option-cases (find test rows)) [
        | inl gone ↦ subst (Change rows) (ground arith) Change.same
        | inr (row, found) ↦ elim (Option-cases (decrypt row.code_verifier_ciphertext)) [
          | inl broken ↦ subst (Change rows) (ground arith) (Change.spent test now actor)
          | inr (v, read) ↦ subst (Change rows) (ground arith) (Change.spent test now actor)
        ]
      ]

  Step-Change : {rows after : Table} → Step rows after → Change rows after
  Step-Change {rows} {after} (create_one b path redirect drawn now made e) =
      let (_, _, free, grown) = create-ok b path redirect drawn now rows after made e in
      subst (Change rows) (sym grown) (
        Change.added
          (new_transaction urlsplit hash_token encrypt expire_after b path redirect drawn now) free)
  Step-Change {rows} (consume_one b state now) = consume-Change b state now rows
  Step-Change {rows} (consume_actor provider actor state now) =
      consume_for_actor-Change provider actor state now rows

  pub Reach-IsUnique : {rows : Table} → Reach rows → IsUnique rows
  Reach-IsUnique start h = omega arith
  Reach-IsUnique (next reached step) h =
      Change-IsUnique (Step-Change step) (Reach-IsUnique reached) h

  pub Later-IsUsed :
      (h : ℕ) {rows after : Table} → Later rows after → IsUsed h rows → IsUsed h after
  Later-IsUsed h here v = v
  Later-IsUsed h (later before step) v =
      Change-IsUsed h (Step-Change step) (Later-IsUsed h before v)
