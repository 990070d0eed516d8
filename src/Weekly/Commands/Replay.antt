-- ===== src/Weekly/Commands/Replay.antt =====
-- `_command_replay` and `_record_command`: a command that is sent again.
pub mod Approval
pub mod Moving
use shiptawk_be.Prelude.{
  ℕ, ◌≡◌, refl, sym, ap, subst, ◌∙◌, ◌⊎◌, Bool, true, false, ◌&&◌, String, Option, none, some, List,
  [], ◌∷◌, ◌++◌, arith, find, find-append, find-holds, any, ◌==◌, str_eq, eq_iff, is_id, same_id,
  Result, ok, err, Result-cases, Option-cases, Bool-cases, inl, inr, ◌>>=◌, ◌>>◌, if◌then◌else◌,
}
use shiptawk_be.Text.{Text}
use shiptawk_be.Weekly.Policy.{CommandError, ActionStatus}
use shiptawk_be.Weekly.Store.{
  Tenant, Store, Receipt, Operation, operation_code, PlanAction, is_action, get_action,
}
use shiptawk_be.Weekly.Commands.{
  Command, or_raise, is_receipt, receipt_of, command_replay, record_command,
}

is_receipt_self : (c : Command) (i : ℕ) → is_receipt c (receipt_of c i) ≡ true
is_receipt_self c i = ground (arith, eq_iff c.idempotency_key c.idempotency_key)

no_receipt :
    (c : Command) (s : Store) → command_replay c s ≡ ok none → find (is_receipt c) s.receipts ≡ none
unfolding command_replay
no_receipt c s h = elim (Option-cases (find (is_receipt c) s.receipts)) [
  | inl gone ↦ gone
  | inr (r, there) ↦ absurd (ground arith)
]

-- A recorded command is answered with its resource from then on.
pub command_replay-record_command :
    (c : Command) (i : ℕ) (s noted : Store)
    → command_replay c s ≡ ok none
    → noted.receipts ≡ s.receipts
    → command_replay c (record_command c i noted) ≡ ok (some i)
unfolding command_replay record_command
command_replay-record_command c i s noted fresh same =
    let gone : find (is_receipt c) noted.receipts ≡ none = rw same (no_receipt c s fresh) in
    let there : find (is_receipt c) (noted.receipts ++ receipt_of c i ∷ [])
        ≡ some (receipt_of c i) =
      find-append (is_receipt c) noted.receipts (receipt_of c i ∷ []) gone
      ∙ rw (is_receipt_self c i) refl in
    let known : str_eq c.fingerprint c.fingerprint ≡ true = (eq_iff _ _).1 refl in
    rw (command_replay, there, known) refl

-- Another payload under the key of an answered command is a conflict.
pub command_replay-conflict :
    (c : Command) (i : ℕ) (s : Store) (other : String)
    → command_replay c s ≡ ok (some i)
    → str_eq c.fingerprint other ≡ false
    → command_replay (record c { fingerprint = other }) s ≡ err CommandError.key_conflict
unfolding command_replay
command_replay-conflict c i s other answered differs =
    elim (Option-cases (find (is_receipt c) s.receipts)) [
      | inl gone ↦ absurd (ground arith)
      | inr (r, there) ↦
          let known : str_eq r.payload_fingerprint c.fingerprint ≡ true = ground arith in
          let same : r.payload_fingerprint ≡ c.fingerprint = (eq_iff _ _).0 known in
          rw (command_replay, there, same, differs) refl
    ]

pub get_action-id :
    (t : Tenant) (i : ℕ) (s : Store) (a : PlanAction) → get_action t i s ≡ some a → a.id ≡ i
unfolding get_action
get_action-id t i s a there = let hit = find-holds (is_action t i) s.actions there in ground arith
