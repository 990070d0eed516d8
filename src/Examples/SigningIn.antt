-- ===== src/Examples/SigningIn.antt =====
-- A login, two rotations, and a replayed token.
use shiptawk_be.Prelude.{
  ℕ, ◌≡◌, ◌+◌, refl, Bool, true, false, ◌==◌, ◌&&◌, none, some, List, [], ◌∷◌, count, ok, err, All,
  arith,
}
use shiptawk_be.Sessions.{
  SessionError, AuthSession, Table, User, Device, Drawn, new_session, is_bound,
  refresh_session_is_active, get_session_by_refresh_hash, get_user_by_id, replace_session,
  mark_session_family_compromised, create_refresh_session_record, rotate_refresh_session,
}
use shiptawk_be.Sessions.Rows.{is_live_in}
use shiptawk_be.Sessions.Steps.{Step, Reach, start, next, replacement_of}
use shiptawk_be.Sessions.Spent.{is_active-is_bound}
use shiptawk_be.Sessions.Rotation.{rotate_refresh_session-chains}

abbrev hashed : ℕ → ℕ
hashed token = token + 500

abbrev person : User
person = record { id = 7; is_active = true; deleted_at = none }

abbrev people : List User
people = person ∷ []

abbrev browser : Device
browser = record { user_agent = some (b'a' ∷ b'b' ∷ []); ip_address = none; device_name = none }

abbrev none_unseen : ℕ → Bool
none_unseen i = false

abbrev first_drawn : Drawn
first_drawn = record { token = 1; id = 11; family_id = 21 }

abbrev second_drawn : Drawn
second_drawn = record { token = 2; id = 12; family_id = 22 }

abbrev third_drawn : Drawn
third_drawn = record { token = 3; id = 13; family_id = 23 }

abbrev first_row : AuthSession
first_row = new_session hashed 7 first_drawn 100 7 40 browser none 0

abbrev second : AuthSession
second = replacement_of hashed 7 second_drawn 200 browser first_row person

abbrev retired_first : AuthSession
retired_first = record first_row {
  last_used_at = some 200;
  revoked_at = some 200;
  replaced_by_id = some 12;
}

abbrev one : Table
one = first_row ∷ []

abbrev two : Table
two = retired_first ∷ second ∷ []

made :
    create_refresh_session_record hashed 7 first_drawn 100 7 40 browser none 0 []
    ≡ ok (first_row, one)
unfolding create_refresh_session_record
made = refl

logged_in : Reach hashed 7 one
logged_in = next start (Step.login first_drawn 100 7 40 browser first_row refl made)

is_active-is_bound_example :
    All
      (λ s.
        is_bound person s.id 300 s
        ≡ (s.user_id == 7 && refresh_session_is_active 300 s && true && true))
      one
is_active-is_bound_example = is_active-is_bound hashed 7 person 300 logged_in

rotated_once :
    rotate_refresh_session hashed 7 people second_drawn 200 browser none_unseen 1 one
    ≡ (ok (person, 2, second), two)
unfolding rotate_refresh_session get_session_by_refresh_hash get_user_by_id replace_session
    create_refresh_session_record
rotated_once = refl

rotate_refresh_session-chains_example :
    (next_one : AuthSession) × (final : Table) × (rotate_refresh_session hashed 7 people third_drawn
        300 browser none_unseen 2 two
      ≡ (ok (person, 3, next_one), final))
    × (next_one.family_id ≡ second.family_id)
    × (next_one.generation ≡ second.generation + 1)
rotate_refresh_session-chains_example =
    rotate_refresh_session-chains hashed 7 people second_drawn third_drawn 200 300 browser browser
      none_unseen none_unseen 1 one person 2 second two rotated_once (omega arith) refl

abbrev marked : Table
marked =
    record retired_first { revoked_at = some 300; compromised_at = some 300 }
    ∷ record second { revoked_at = some 300; compromised_at = some 300 }
    ∷ []

-- A replay whose update does not see the replacement that a rotation at the same time inserts leaves
-- that session as it is.
abbrev missed : Table
missed = record retired_first { revoked_at = some 300; compromised_at = some 300 } ∷ second ∷ []

replay_misses :
    rotate_refresh_session hashed 7 people third_drawn 300 browser (λ i. i == 12) 1 two
    ≡ (err SessionError.refresh_token_reuse, missed)
unfolding rotate_refresh_session get_session_by_refresh_hash mark_session_family_compromised
replay_misses = refl

missed_live : count (is_live_in 21) missed ≡ 1
missed_live = refl
