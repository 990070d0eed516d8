-- ===== src/Sessions/Rows.antt =====
-- What a session keeps when it is rewritten.
use shiptawk_be.Prelude.{
  ℕ, ◌≡◌, refl, ◌≤◌, Bool, true, not, ◌&&◌, Option, none, some, arith, length, length-take,
}
use shiptawk_be.Text.{Text}
use shiptawk_be.Sessions.{
  AuthSession, Device, Drawn, is_set, in_family, truncate, compromise, revoke, retire, move_to,
  new_session, max_user_agent_length, max_ip_address_length, max_device_name_length,
}

-- Neither revoked nor replaced.
abbrev pub is_live_in : ℕ → AuthSession → Bool
is_live_in family s =
    in_family family s && not (is_set s.revoked_at) && not (is_set s.replaced_by_id)

abbrev pub Fits : ℕ → Option Text → Type 0
Fits limit none = Unit
Fits limit (some t) = length t ≤ limit

-- A replaced session is revoked, and the texts fit their columns.
pub record IsSound (s : AuthSession) : Type 0 where
  pub replaced : is_set s.replaced_by_id ≡ true → is_set s.revoked_at ≡ true
  pub user_agent : Fits max_user_agent_length s.user_agent
  pub ip_address : Fits max_ip_address_length s.ip_address
  pub device_name : Fits max_device_name_length s.device_name

-- A rewrite that revives no session.
pub record IsRetiring (f : AuthSession → AuthSession) : Type 0 where
  pub same_hash : (s : AuthSession) → (f s).refresh_token_hash ≡ s.refresh_token_hash
  pub same_family : (s : AuthSession) → (f s).family_id ≡ s.family_id
  pub revoked : (s : AuthSession) → is_set s.revoked_at ≡ true → is_set (f s).revoked_at ≡ true
  pub live : (k : ℕ) (s : AuthSession) → is_live_in k (f s) ≡ true → is_live_in k s ≡ true
  pub sound : (s : AuthSession) → IsSound s → IsSound (f s)

pub compromise-IsRetiring : (now : ℕ) → IsRetiring (compromise now)
compromise-IsRetiring now = record {
  same_hash = λ s. refl;
  same_family = λ s. refl;
  revoked = λ s h. refl;
  live = λ k s h. ground arith;
  sound = λ s h. record {
    replaced = λ _. refl;
    user_agent = h.user_agent;
    ip_address = h.ip_address;
    device_name = h.device_name;
  };
}

pub revoke-IsRetiring : (now : ℕ) → IsRetiring (revoke now)
revoke-IsRetiring now = record {
  same_hash = λ s. refl;
  same_family = λ s. refl;
  revoked = λ s h. refl;
  live = λ k s h. ground arith;
  sound = λ s h. record {
    replaced = λ _. refl;
    user_agent = h.user_agent;
    ip_address = h.ip_address;
    device_name = h.device_name;
  };
}

pub retire-IsRetiring : (now i : ℕ) → IsRetiring (retire now i)
retire-IsRetiring now i = record {
  same_hash = λ s. refl;
  same_family = λ s. refl;
  revoked = λ s h. refl;
  live = λ k s h. ground arith;
  sound = λ s h. record {
    replaced = λ _. refl;
    user_agent = h.user_agent;
    ip_address = h.ip_address;
    device_name = h.device_name;
  };
}

pub move_to-IsRetiring : (w : ℕ) → IsRetiring (move_to w)
move_to-IsRetiring w = record {
  same_hash = λ s. refl;
  same_family = λ s. refl;
  revoked = λ s h. h;
  live = λ k s h. h;
  sound = λ s h. record {
    replaced = h.replaced;
    user_agent = h.user_agent;
    ip_address = h.ip_address;
    device_name = h.device_name;
  };
}

truncate-Fits : (t : Option Text) (limit : ℕ) → Fits limit (truncate t limit)
unfolding truncate
truncate-Fits none limit = tt
truncate-Fits (some t) limit = omega (arith, length-take limit t)

pub new_session-IsSound :
    (hash_token : ℕ → ℕ) (days : ℕ) (drawn : Drawn) (now user workspace : ℕ) (device : Device)
    (family : Option ℕ) (generation : ℕ)
    → IsSound (new_session hash_token days drawn now user workspace device family generation)
new_session-IsSound hash_token days drawn now user workspace device family generation = record {
  replaced = λ h. ground arith;
  user_agent = truncate-Fits device.user_agent max_user_agent_length;
  ip_address = truncate-Fits device.ip_address max_ip_address_length;
  device_name = truncate-Fits device.device_name max_device_name_length;
}
