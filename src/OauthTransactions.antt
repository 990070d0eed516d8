-- ===== src/OauthTransactions.antt =====
-- app/modules/integrations/services/oauth_transaction_service.py with policies/return_paths.py: the
-- state that an OAuth redirect carries, stored at its start and consumed at its callback.
pub mod Steps
pub mod Trips
use shiptawk_be.Prelude.{
  ℕ, Bool, true, false, not, ◌+◌, ◌&&◌, ◌||◌, Option, none, some, List, [], ◌∷◌, ◌++◌, find, any,
  update, ltb, ◌==◌, same_id, Result, ok, err, guard, ◌>>=◌, ◌>>◌, if◌then◌else◌,
}
use shiptawk_be.Text.{Text, starts_with, same_text, same_opt_text}

-- The codes of `BadRequestError`, and a refused insert.
pub data OauthError : Type 0 where
  invalid_return_path invalid_oauth_state refused_transaction : OauthError

pub record Binding : Type 0 where
  pub workspace_id : ℕ
  pub actor_id : ℕ
  pub provider : Text
  pub purpose : Option Text
  pub subject_type : Option Text
  pub subject_id : Option ℕ

pub record Created : Type 0 where
  pub state : ℕ
  pub code_verifier : Text

pub record Consumed : Type 0 where
  pub code_verifier : Text
  pub return_path : Text
  pub redirect_uri : Text

pub record ConsumedBound : Type 0 where
  pub binding : Binding
  pub code_verifier : Text
  pub return_path : Text
  pub redirect_uri : Text

pub record OauthTransaction : Type 0 where
  pub workspace_id : ℕ
  pub user_id : ℕ
  pub provider : Text
  pub purpose : Option Text
  pub subject_type : Option Text
  pub subject_id : Option ℕ
  pub state_hash : ℕ
  pub code_verifier_ciphertext : Text
  pub return_path : Text
  pub redirect_uri : Text
  pub expires_at : ℕ
  pub consumed_at : Option ℕ
  pub created_by : ℕ
  pub updated_by : Option ℕ

abbrev pub Table : Type 0
Table = List OauthTransaction

-- Whether `urlsplit` finds a scheme, a host or a fragment.
pub record SplitUrl : Type 0 where
  pub scheme : Bool
  pub netloc : Bool
  pub fragment : Bool

abbrev pub slash : Text
slash = b'/' ∷ []

abbrev pub two_slashes : Text
two_slashes = b'/' ∷ b'/' ∷ []

-- A backslash.
abbrev pub is_backslash : ℕ → Bool
is_backslash c = c == 92

unfoldable pub validate_return_path : (Text → SplitUrl) → Text → Result OauthError Text
validate_return_path urlsplit path = do
  let parsed = urlsplit path
  guard
      (not (
        not (starts_with slash path)
        || starts_with two_slashes path
        || any is_backslash path
        || parsed.scheme
        || parsed.netloc
        || parsed.fragment))
      OauthError.invalid_return_path
  ok path

-- The values that one `create` draws: the token, the verifier, and the nonce of the encryption.
pub record Drawn : Type 0 where
  pub state : ℕ
  pub verifier : Text
  pub nonce : ℕ

abbrev pub is_unset : Option ℕ → Bool
is_unset none = true
is_unset (some t) = false

abbrev pub has_state : ℕ → OauthTransaction → Bool
has_state h t = t.state_hash == h

-- The row that waits for the callback with this state: not consumed and not expired.
abbrev pub is_waiting : ℕ → ℕ → OauthTransaction → Bool
is_waiting h now t = has_state h t && is_unset t.consumed_at && ltb now t.expires_at

abbrev pub is_bound_to : Binding → OauthTransaction → Bool
is_bound_to b t =
    t.workspace_id == b.workspace_id
    && t.user_id == b.actor_id
    && same_text t.provider b.provider
    && same_opt_text t.purpose b.purpose
    && same_opt_text t.subject_type b.subject_type
    && same_id t.subject_id b.subject_id

abbrev pub is_of_actor : Text → ℕ → OauthTransaction → Bool
is_of_actor provider actor t = t.user_id == actor && same_text t.provider provider

abbrev pub matches : Binding → ℕ → ℕ → OauthTransaction → Bool
matches b h now t = is_bound_to b t && is_waiting h now t

abbrev pub matches_actor : Text → ℕ → ℕ → ℕ → OauthTransaction → Bool
matches_actor provider actor h now t = is_of_actor provider actor t && is_waiting h now t

abbrev pub spend : ℕ → ℕ → OauthTransaction → OauthTransaction
spend now actor t = record t { consumed_at = some now; updated_by = some actor }

abbrev pub binding_of : OauthTransaction → Binding
binding_of t = record {
  workspace_id = t.workspace_id;
  actor_id = t.user_id;
  provider = t.provider;
  purpose = t.purpose;
  subject_type = t.subject_type;
  subject_id = t.subject_id;
}

-- `hash_token` is SHA-256, `encrypt` and `decrypt` are Fernet's, and `expire_after` is the lifetime.
module _ (urlsplit : Text → SplitUrl) (hash_token : ℕ → ℕ) (encrypt : ℕ → Text → Text)
    (expire_after : ℕ) where
  abbrev pub new_transaction : Binding → Text → Text → Drawn → ℕ → OauthTransaction
  new_transaction b path redirect drawn now = record {
    workspace_id = b.workspace_id;
    user_id = b.actor_id;
    provider = b.provider;
    purpose = b.purpose;
    subject_type = b.subject_type;
    subject_id = b.subject_id;
    state_hash = hash_token drawn.state;
    code_verifier_ciphertext = encrypt drawn.nonce drawn.verifier;
    return_path = path;
    redirect_uri = redirect;
    expires_at = now + expire_after;
    consumed_at = none;
    created_by = b.actor_id;
    updated_by = none;
  }

  -- `IntegrationOAuthTransactionService.create`. The index on the hash of the state is unique.
  unfoldable pub create :
      Binding → Text → Text → Drawn → ℕ → Table → Result OauthError (Created × Table)
  unfolding validate_return_path
  create b path redirect drawn now rows = do
    safe ← validate_return_path urlsplit path
    let row = new_transaction b safe redirect drawn now
    guard (not (any (has_state row.state_hash) rows)) OauthError.refused_transaction
    ok (record { state = drawn.state; code_verifier = drawn.verifier }, rows ++ row ∷ [])

module _ (hash_token : ℕ → ℕ) (decrypt : Text → Option Text) where
  -- `consume`: the update is committed before the decryption, which may fail.
  unfoldable pub consume : Binding → ℕ → ℕ → Table → Result OauthError Consumed × Table
  consume b state now rows =
      let test = matches b (hash_token state) now in
      elim (find test rows) [
        | none ↦ (err OauthError.invalid_oauth_state, rows)
        | some row ↦
            let after = update test (spend now b.actor_id) rows in
            elim (decrypt row.code_verifier_ciphertext) [
              | none ↦ (err OauthError.invalid_oauth_state, after)
              | some verifier ↦ (
                ok (record {
                  code_verifier = verifier;
                  return_path = row.return_path;
                  redirect_uri = row.redirect_uri;
                }),
                after,
              )
            ]
      ]

  unfoldable pub consume_for_actor :
      Text → ℕ → ℕ → ℕ → Table → Result OauthError ConsumedBound × Table
  consume_for_actor provider actor state now rows =
      let test = matches_actor provider actor (hash_token state) now in
      elim (find test rows) [
        | none ↦ (err OauthError.invalid_oauth_state, rows)
        | some row ↦
            let after = update test (spend now actor) rows in
            elim (decrypt row.code_verifier_ciphertext) [
              | none ↦ (err OauthError.invalid_oauth_state, after)
              | some verifier ↦ (
                ok (record {
                  binding = binding_of row;
                  code_verifier = verifier;
                  return_path = row.return_path;
                  redirect_uri = row.redirect_uri;
                }),
                after,
              )
            ]
      ]
