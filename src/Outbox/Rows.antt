-- ===== src/Outbox/Rows.antt =====
-- The constraints of the table of app/db/outbox.py, and the rewrites of its rows.
use shiptawk_be.Prelude.{
  ℕ, ◌≤◌, ◌≡◌, refl, ap, Bool, true, false, String, Option, none, some, [], ◌∷◌, ◌++◌, arith, count,
  find, any, update, ◌==◌, str_eq, All, All-append, All-update, All-mono, All-intro, count-update,
  count-append_one, and_split, subst, count-of_find-none, any-of_count, eq_iff, ==_iff,
}
use mathlib.Core.Path.{subst₂}
use shiptawk_be.Text.{Text}
use shiptawk_be.Outbox.{
  OutboxEvent, Table, is_publishing, has_id, has_key, same_key, lease_row, publish_row, release_row,
}

abbrev is_some : Option ℕ → Bool
is_some none = false
is_some (some t) = true

-- The check constraint `lease_matches_status`.
abbrev pub LeaseMatches : OutboxEvent → Type 0
LeaseMatches e = is_some e.lease_expires_at ≡ is_publishing e.status

pub record IsValid (rows : Table) : Type 0 where
  pub leases : All LeaseMatches rows
  pub ids : (i : ℕ) → count (has_id i) rows ≤ 1
  pub keys : (name key : String) → count (has_key name key) rows ≤ 1

pub []-IsValid : IsValid []
[]-IsValid = record { leases = tt; ids = λ i. omega arith; keys = λ n k. omega arith }

-- A rewrite of some rows that keeps identifiers and keys, and writes a lease with its status.
pub update-IsValid :
    (q : OutboxEvent → Bool) (f : OutboxEvent → OutboxEvent)
    → ((e : OutboxEvent) → (f e).id ≡ e.id)
    → ((e : OutboxEvent) → (f e).event_name ≡ e.event_name)
    → ((e : OutboxEvent) → (f e).idempotency_key ≡ e.idempotency_key)
    → ((e : OutboxEvent) → LeaseMatches (f e))
    → (rows : Table) → IsValid rows
    → IsValid (update q f rows)
update-IsValid q f same_id same_name same_idem leased rows v = record {
  leases =
      All-update LeaseMatches q f rows (All-intro _ (λ e _. leased e) rows)
        (All-mono _ _ (λ e h _. h) rows v.leases);
  ids = λ i. rw (count-update (has_id i) q f (λ e. ap (λ j. j == i) (same_id e)) rows) (v.ids i);
  keys = λ n k.
      rw (count-update (has_key n k) q f (λ e. cc (same_name e, same_idem e)) rows) (v.keys n k);
}

pub lease-IsValid :
    (q : OutboxEvent → Bool) (now lease : ℕ) (rows : Table)
    → IsValid rows
    → IsValid (update q (lease_row now lease) rows)
unfolding lease_row
lease-IsValid q now lease rows v =
    update-IsValid q (lease_row now lease) (λ e. refl) (λ e. refl) (λ e. refl) (λ e. refl) rows v

pub publish-IsValid :
    (q : OutboxEvent → Bool) (at : ℕ) (rows : Table)
    → IsValid rows
    → IsValid (update q (publish_row at) rows)
unfolding publish_row
publish-IsValid q at rows v =
    update-IsValid q (publish_row at) (λ e. refl) (λ e. refl) (λ e. refl) (λ e. refl) rows v

release_leased :
    (lower : Text → Text) (c : Text) (t m a : ℕ) (e : OutboxEvent)
    → LeaseMatches (release_row lower c t m a e)
unfolding release_row
release_leased lower c t m a e = ground arith

pub release-IsValid :
    (lower : Text → Text) (c : Text) (t m a : ℕ) (q : OutboxEvent → Bool) (rows : Table)
    → IsValid rows
    → IsValid (update q (release_row lower c t m a) rows)
unfolding release_row
release-IsValid lower c t m a q rows v =
    update-IsValid q (release_row lower c t m a) (λ e. refl) (λ e. refl) (λ e. refl)
      (release_leased lower c t m a) rows v

-- One more row, whose identifier and key no row has.
pub append-IsValid :
    (rows : Table) (e : OutboxEvent)
    → LeaseMatches e
    → find (same_key e) rows ≡ none
    → any (has_id e.id) rows ≡ false
    → IsValid rows
    → IsValid (rows ++ e ∷ [])
append-IsValid rows e leased no_key no_id v = record {
  leases = All-append LeaseMatches rows (e ∷ []) v.leases (leased, tt);
  ids = λ i. count-append_one (has_id i) rows e (no_id_at i) (v.ids i);
  keys = λ n k. count-append_one (has_key n k) rows e (no_key_at n k) (v.keys n k);
}
  where
    no_id_at : (i : ℕ) → (e.id == i) ≡ true → count (has_id i) rows ≡ 0
    no_id_at i h =
        subst (λ j. count (has_id j) rows ≡ 0) ((==_iff e.id i).0 h)
          (any-of_count (has_id e.id) rows no_id)

    no_key_at : (n k : String) → has_key n k e ≡ true → count (has_key n k) rows ≡ 0
    no_key_at n k h =
        let (same_name, same_idem) =
          and_split (str_eq e.event_name n) (str_eq e.idempotency_key k) h in
        subst₂ (λ m j. count (has_key m j) rows ≡ 0) ((eq_iff e.event_name n).0 same_name)
          ((eq_iff e.idempotency_key k).0 same_idem) (count-of_find-none (same_key e) rows no_key)
