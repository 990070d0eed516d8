-- ===== src/Llm/Once.antt =====
-- The row of a request from table to table.
use shiptawk_be.Prelude.{
  ℕ, ◌≡◌, refl, ◌∙◌, subst, true, some, [], ◌∷◌, ◌++◌, arith, any, find, ok, Option-cases,
  Bool-cases, inl, inr, ◌==◌, ==_self, find-holds, find-of_unique, find-update-some, find-append,
  find-append_some, find-miss,
}
use shiptawk_be.Text.{Text, same_text_self}
use shiptawk_be.Llm.{LlmExecution, Table, get_by_key, has_key, execution_clashes, flush_execution}
use shiptawk_be.Llm.Rows.{SameRequest, has_id}
use shiptawk_be.Llm.Steps.{
  Change, same, added, written, Step-Change, Reach, Later, here, later, any_token, new_execution,
}
use shiptawk_be.Llm.Frozen.{Reach-IsConsistent}
use shiptawk_be.Llm.Execute.{Request, create_or_replay}

-- The row of a request.
pub record IsFor (req : Request) (print i : ℕ) (rows : Table) : Type 0 where
  pub row : LlmExecution
  pub found : find (has_id i) rows ≡ some row
  pub keyed : has_key req.workspace_id req.product_id req.use_case req.idempotency_key row ≡ true
  pub print_is : row.request_fingerprint ≡ print

has_key-request :
    (w p : ℕ) (u k : Text) (e f : LlmExecution)
    → SameRequest e f
    → has_key w p u k f ≡ has_key w p u k e
has_key-request w p u k e f same_request =
    rw
      (
        same_request.workspace_id, same_request.product_id, same_request.use_case,
        same_request.idempotency_key,
      )
      refl

Change-IsFor :
    (req : Request) (print i : ℕ) {rows after : Table}
    → Change rows after
    → IsFor req print i rows
    → IsFor req print i after
Change-IsFor req print i same v = v
Change-IsFor req print i {rows} (added row sound free) v = record {
  row = v.row;
  found = find-append_some (has_id i) rows (row ∷ []) v.found;
  keyed = v.keyed;
  print_is = v.print_is;
}
Change-IsFor req print i {rows} (written test f write) v =
    let found =
      find-update-some (has_id i) test f (λ x. rw ((write.request x).id) refl) rows v.row v.found in
    let r = write.request v.row in
    elim (Bool-cases (test v.row)) [
      | inl hit ↦ record {
        row = f v.row;
        found = found ∙ rw hit refl;
        keyed =
            has_key-request req.workspace_id req.product_id req.use_case req.idempotency_key v.row
              (f v.row) r
            ∙ v.keyed;
        print_is = r.request_fingerprint ∙ v.print_is;
      }
      | inr miss ↦ record {
        row = v.row;
        found = found ∙ rw miss refl;
        keyed = v.keyed;
        print_is = v.print_is;
      }
    ]

pub Later-IsFor :
    (req : Request) (print i : ℕ) {rows after : Table}
    → Later any_token rows after
    → IsFor req print i rows
    → IsFor req print i after
Later-IsFor req print i here v = v
Later-IsFor req print i (later before step) v =
    Change-IsFor req print i (Step-Change step) (Later-IsFor req print i before v)

pub create_or_replay-IsFor :
    (req : Request) (print new_id : ℕ) (rows : Table) (e : LlmExecution)
    → Reach rows
    → (create_or_replay req print new_id rows).0 ≡ ok e
    → (is_for : IsFor req print e.id ((create_or_replay req print new_id rows).1)) × (is_for.row
        ≡ e)
unfolding create_or_replay get_by_key flush_execution
create_or_replay-IsFor req print new_id rows e reached h =
    let row =
      new_execution new_id req.workspace_id req.product_id req.use_case req.idempotency_key print
        req.route_name in
    let test = has_key req.workspace_id req.product_id req.use_case req.idempotency_key in
    elim (Bool-cases (any (execution_clashes row) rows)) [
      | inr free ↦
          let own : row ≡ e = ground arith in
          let grown : rows ++ row ∷ [] ≡ (create_or_replay req print new_id rows).1 =
            ground arith in
          subst
            (λ x.
              (is_for : IsFor req print x.id ((create_or_replay req print new_id rows).1))
              × (is_for.row ≡ x))
            own
            (subst (λ t. (is_for : IsFor req print new_id t) × (is_for.row ≡ row)) grown
              (
                record {
                  row = row;
                  found =
                      find-append (has_id new_id) rows (row ∷ []) (
                        find-miss (has_id new_id) (execution_clashes row) (λ x hit. ground arith)
                          rows free)
                      ∙ rw (==_self new_id) refl;
                  keyed =
                      ground
                        (arith, same_text_self req.use_case, same_text_self req.idempotency_key);
                  print_is = refl;
                },
                refl,
              ))
      | inl clash ↦ elim (Option-cases (find test rows)) [
        | inl gone ↦ absurd (ground arith)
        | inr (old, found) ↦ elim (Bool-cases (old.request_fingerprint == print)) [
          | inr differ ↦ absurd (ground arith)
          | inl equal ↦
              let own : old ≡ e = ground arith in
              let kept : rows ≡ (create_or_replay req print new_id rows).1 = ground arith in
              subst
                (λ x.
                  (is_for : IsFor req print x.id ((create_or_replay req print new_id rows).1))
                  × (is_for.row ≡ x))
                own
                (subst (λ t. (is_for : IsFor req print old.id t) × (is_for.row ≡ old)) kept
                  (
                    record {
                      row = old;
                      found =
                          find-of_unique (has_id old.id) test rows old
                            ((Reach-IsConsistent reached).ids old.id) found (==_self old.id);
                      keyed = find-holds test rows found;
                      print_is = ground arith;
                    },
                    refl,
                  ))
        ]
      ]
    ]
