-- ===== src/Examples/Redirecting.antt =====
-- An OAuth redirect and its callback.
use shiptawk_be.Prelude.{ℕ, ◌≡◌, refl, false, none, some, [], ◌∷◌, Option, ok, err, arith, ◌+◌}
use shiptawk_be.Text.{Text}
use shiptawk_be.OauthTransactions.{
  OauthError, Binding, Created, Consumed, ConsumedBound, OauthTransaction, Table, SplitUrl, Drawn,
  spend, new_transaction, create, consume, consume_for_actor, validate_return_path,
}
use shiptawk_be.OauthTransactions.Steps.{Step, Reach, start, next, here}
use shiptawk_be.OauthTransactions.Trips.{
  create-consume, create-consume_for_actor, consume-single_use,
}

abbrev plain : Text → SplitUrl
plain t = record { scheme = false; netloc = false; fragment = false }

abbrev hashed : ℕ → ℕ
hashed state = state + 500

abbrev sealed : ℕ → Text → Text
sealed nonce t = b'!' ∷ t

abbrev unsealed : Text → Option Text
unsealed [] = none
unsealed (c ∷ t) = some t

unsealed-sealed : (nonce : ℕ) (v : Text) → unsealed (sealed nonce v) ≡ some v
unsealed-sealed nonce v = refl

abbrev bound : Binding
bound = record {
  workspace_id = 1;
  actor_id = 2;
  provider = b'x' ∷ [];
  purpose = none;
  subject_type = some (b'p' ∷ []);
  subject_id = some 3;
}

abbrev drawn : Drawn
drawn = record { state = 9; verifier = b'v' ∷ []; nonce = 0 }

abbrev path : Text
path = b'/' ∷ b'a' ∷ []

abbrev redirect : Text
redirect = b'r' ∷ []

abbrev row : OauthTransaction
row = new_transaction plain hashed sealed 600 bound path redirect drawn 100

abbrev table : Table
table = row ∷ []

abbrev spent_table : Table
spent_table = spend 200 2 row ∷ []

abbrev made : Created
made = record { state = 9; code_verifier = b'v' ∷ [] }

abbrev result : Consumed
result = record { code_verifier = b'v' ∷ []; return_path = path; redirect_uri = redirect }

abbrev bound_result : ConsumedBound
bound_result = record {
  binding = bound;
  code_verifier = b'v' ∷ [];
  return_path = path;
  redirect_uri = redirect;
}

created : create plain hashed sealed 600 bound path redirect drawn 100 [] ≡ ok (made, table)
unfolding create validate_return_path
created = refl

create-consume_example : (consume hashed unsealed bound 9 200 table).0 ≡ ok result
create-consume_example =
    create-consume plain hashed sealed 600 unsealed unsealed-sealed bound path redirect drawn 100
      200 [] table made created (omega arith)

create-consume_for_actor_example :
    (consume_for_actor hashed unsealed (b'x' ∷ []) 2 9 200 table).0 ≡ ok bound_result
create-consume_for_actor_example =
    create-consume_for_actor plain hashed sealed 600 unsealed unsealed-sealed bound path redirect
      drawn 100 200 [] table made created (omega arith)

consumed : consume hashed unsealed bound 9 200 table ≡ (ok result, spent_table)
unfolding consume
consumed = refl

reached : Reach plain hashed sealed 600 unsealed table
reached = next start (Step.create_one bound path redirect drawn 100 made created)

consume-single_use_example :
    (consume hashed unsealed bound 9 300 spent_table
      ≡ (err OauthError.invalid_oauth_state, spent_table))
    × (consume_for_actor hashed unsealed (b'x' ∷ []) 2 9 300 spent_table
        ≡ (err OauthError.invalid_oauth_state, spent_table))
consume-single_use_example =
    consume-single_use plain hashed sealed 600 unsealed bound bound (b'x' ∷ []) 2 9 200 300 table
      spent_table spent_table result reached consumed here
