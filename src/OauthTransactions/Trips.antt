-- ===== src/OauthTransactions/Trips.antt =====
-- A state from its creation to its callback.
use shiptawk_be.Prelude.{
  ℕ, ◌≡◌, ◌<◌, ◌+◌, refl, ◌∙◌, subst, Bool, true, false, Option, none, some, [], ◌∷◌, arith, find,
  find-append, any, update, ok, err, Option-cases, Bool-cases, inl, inr, All, same_id_self,
}
use shiptawk_be.Text.{Text, same_text_self, same_opt_text_self}
use shiptawk_be.OauthTransactions.{
  OauthError, Binding, Created, Consumed, OauthTransaction, Table, SplitUrl, Drawn, is_unset,
  has_state, is_waiting, is_bound_to, matches, matches_actor, spend, new_transaction, create,
  consume, consume_for_actor,
}
use shiptawk_be.OauthTransactions.Steps.{
  Reach, Later, IsUsed, IsUnique, spent-IsUsed, create-ok, Reach-IsUnique, Later-IsUsed,
}

-- Where no row has a state, no row waits for it.
nothing_waits :
    (test : OauthTransaction → Bool) (h : ℕ) (rows : Table)
    → ((t : OauthTransaction) → test t ≡ true → has_state h t ≡ true)
    → any (has_state h) rows ≡ false
    → find test rows ≡ none
nothing_waits test h [] by_state free = refl
nothing_waits test h (t ∷ rows) by_state free =
    ground (arith, by_state t, nothing_waits test h rows by_state)

used-unfound :
    (test : OauthTransaction → Bool) (h : ℕ) (rows : Table)
    → ((t : OauthTransaction) → test t ≡ true → has_state h t ≡ true)
    → ((t : OauthTransaction) → test t ≡ true → is_unset t.consumed_at ≡ true)
    → All (λ t. has_state h t ≡ true → is_unset t.consumed_at ≡ false) rows
    → find test rows ≡ none
used-unfound test h [] by_state unset used = refl
used-unfound test h (t ∷ rows) by_state unset used = elim (Bool-cases (test t)) [
  | inl hit ↦
      let own = by_state t hit in
      let open_row = unset t hit in let closed = used.0 own in absurd (ground arith)
  | inr miss ↦ rw miss (used-unfound test h rows by_state unset used.1)
]

-- Once a state is used, no call can consume it.
used-refused :
    (hash_token : ℕ → ℕ) (decrypt : Text → Option Text) (state : ℕ) (rows : Table)
    → IsUsed (hash_token state) rows
    → (b : Binding) (provider : Text) (actor at : ℕ)
    → (consume hash_token decrypt b state at rows ≡ (err OauthError.invalid_oauth_state, rows))
      × (consume_for_actor hash_token decrypt provider actor state at rows
          ≡ (err OauthError.invalid_oauth_state, rows))
unfolding consume consume_for_actor
used-refused hash_token decrypt state rows v b provider actor at =
    let h = hash_token state in
    let gone =
      used-unfound (matches b h at) h rows (λ t hit. ground arith) (λ t hit. ground arith) v.used in
    let gone_actor =
      used-unfound (matches_actor provider actor h at) h rows (λ t hit. ground arith)
        (λ t hit. ground arith) v.used in
    (ground arith, ground arith)

module _ (urlsplit : Text → SplitUrl) (hash_token : ℕ → ℕ) (encrypt : ℕ → Text → Text)
    (expire_after : ℕ) (decrypt : Text → Option Text) where
  created-waits :
      (b : Binding) (path redirect : Text) (drawn : Drawn) (now at : ℕ)
      → at < now + expire_after
      → (is_bound_to b
            (new_transaction urlsplit hash_token encrypt expire_after b path redirect drawn now)
          ≡ true)
        × (is_waiting
              (hash_token drawn.state)
              at
              (new_transaction urlsplit hash_token encrypt expire_after b path redirect drawn now)
            ≡ true)
  created-waits b path redirect drawn now at early = (
    ground (
      arith,
      same_text_self b.provider,
      same_opt_text_self b.purpose,
      same_opt_text_self b.subject_type,
      same_id_self b.subject_id,
    ),
    ground arith,
  )

  -- A transaction that is created, with decryption undoing encryption, is consumed with the binding
  -- and the state it was created with before it expires: the result is its code verifier, return
  -- path and redirect.
  pub create-consume :
      ((nonce : ℕ) (v : Text) → decrypt (encrypt nonce v) ≡ some v)
      → (b : Binding) (path redirect : Text) (drawn : Drawn) (now at : ℕ) (rows mid : Table)
        (made : Created)
      → create urlsplit hash_token encrypt expire_after b path redirect drawn now rows
        ≡ ok (made, mid)
      → at < now + expire_after
      → (consume hash_token decrypt b made.state at mid).0
        ≡ ok (record {
          code_verifier = made.code_verifier;
          return_path = path;
          redirect_uri = redirect;
        })
  unfolding consume
  create-consume opened b path redirect drawn now at rows mid made e early =
      let (state, verifier, free, grown) =
        create-ok urlsplit hash_token encrypt expire_after decrypt b path redirect drawn now rows
          mid made e in
      let row =
        new_transaction urlsplit hash_token encrypt expire_after b path redirect drawn now in
      let (bound, waits) = created-waits b path redirect drawn now at early in
      let read = opened drawn.nonce drawn.verifier in
      let h = hash_token drawn.state in
      let here : find (matches b h at) mid ≡ some row = rw grown (
        find-append (matches b h at) rows (row ∷ [])
          (nothing_waits (matches b h at) h rows (λ t hit. ground arith) free)
        ∙ ground arith) in
      rw (state, verifier) (ground arith)

  -- The same for the callback that knows only the provider and the actor: it also recovers the whole
  -- binding.
  pub create-consume_for_actor :
      ((nonce : ℕ) (v : Text) → decrypt (encrypt nonce v) ≡ some v)
      → (b : Binding) (path redirect : Text) (drawn : Drawn) (now at : ℕ) (rows mid : Table)
        (made : Created)
      → create urlsplit hash_token encrypt expire_after b path redirect drawn now rows
        ≡ ok (made, mid)
      → at < now + expire_after
      → (consume_for_actor hash_token decrypt b.provider b.actor_id made.state at mid).0
        ≡ ok (record {
          binding = b;
          code_verifier = made.code_verifier;
          return_path = path;
          redirect_uri = redirect;
        })
  unfolding consume_for_actor
  create-consume_for_actor opened b path redirect drawn now at rows mid made e early =
      let (state, verifier, free, grown) =
        create-ok urlsplit hash_token encrypt expire_after decrypt b path redirect drawn now rows
          mid made e in
      let row =
        new_transaction urlsplit hash_token encrypt expire_after b path redirect drawn now in
      let (bound, waits) = created-waits b path redirect drawn now at early in
      let read = opened drawn.nonce drawn.verifier in
      let h = hash_token drawn.state in
      let test = matches_actor b.provider b.actor_id h at in
      let here : find test mid ≡ some row = rw grown (
        find-append test rows (row ∷ []) (nothing_waits test h rows (λ t hit. ground arith) free)
        ∙ ground arith) in
      rw (state, verifier) (ground arith)

  consume-IsUsed :
      (b : Binding) (state now : ℕ) (rows mid : Table) (r : Consumed)
      → IsUnique rows
      → consume hash_token decrypt b state now rows ≡ (ok r, mid)
      → IsUsed (hash_token state) mid
  unfolding consume
  consume-IsUsed b state now rows mid r unique e =
      let test = matches b (hash_token state) now in
      elim (Option-cases (find test rows)) [
        | inl gone ↦ absurd (ground arith)
        | inr (row, found) ↦
            let marked : update test (spend now b.actor_id) rows ≡ mid = ground arith in
            subst (IsUsed (hash_token state)) marked (
              spent-IsUsed (hash_token state) now b.actor_id test rows row unique
                (λ t hit. ground arith) found)
      ]

  -- A state that `consume` has consumed in a reachable table is spent for good: in every later table
  -- both callbacks refuse it, with any binding, and leave the table.
  pub consume-single_use :
      (b other : Binding) (provider : Text) (actor state now at : ℕ) (rows mid final : Table)
      (r : Consumed)
      → Reach urlsplit hash_token encrypt expire_after decrypt rows
      → consume hash_token decrypt b state now rows ≡ (ok r, mid)
      → Later urlsplit hash_token encrypt expire_after decrypt mid final
      → (consume hash_token decrypt other state at final
          ≡ (err OauthError.invalid_oauth_state, final))
        × (consume_for_actor hash_token decrypt provider actor state at final
            ≡ (err OauthError.invalid_oauth_state, final))
  consume-single_use b other provider actor state now at rows mid final r reached e later_on =
      used-refused hash_token decrypt state final
        (Later-IsUsed urlsplit hash_token encrypt expire_after decrypt (hash_token state) later_on (
          consume-IsUsed b state now rows mid r
            (Reach-IsUnique urlsplit hash_token encrypt expire_after decrypt reached) e))
        other provider actor at
