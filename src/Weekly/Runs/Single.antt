-- ===== src/Weekly/Runs/Single.antt =====
-- `create_weekly_run`: keys, and the active runs of a product.
use shiptawk_be.Prelude.{
  ℕ, ◌≤◌, ◌≡◌, sym, ap, subst, ◌∙◌, ◌⊎◌, true, false, none, some, List, [], ◌∷◌, ◌++◌, arith, find,
  find-append, count, count-append_one, count-of_find-none, ltb, ok, Result-cases, Option-cases,
  inl, inr,
}
use shiptawk_be.Text.{Text, same_text_self}
use shiptawk_be.Weekly.Runs.{
  OperatorRun, RunRequest, is_empty, is_active_run, has_run_key, new_run, insert_run,
  get_run_by_key, run_key, create_weekly_run,
}

-- At most one weekly run of each product is pending or running.
abbrev pub IsSingle : List OperatorRun → Type 0
IsSingle runs = (workspace product : ℕ) → count (is_active_run workspace product) runs ≤ 1

insert_run-ok :
    (new_id : ℕ) (key : Text) (req : RunRequest) (runs after : List OperatorRun) (r : OperatorRun)
    → insert_run new_id key req runs ≡ ok (r, after)
    → (r ≡ new_run new_id key req) × (after ≡ runs ++ new_run new_id key req ∷ [])
unfolding insert_run
insert_run-ok new_id key req runs after r h = (ground arith, ground arith)

insert_run-IsSingle :
    (new_id : ℕ) (key : Text) (req : RunRequest) (runs : List OperatorRun)
    → find (is_active_run req.workspace_id req.product_id) runs ≡ none
    → IsSingle runs
    → IsSingle (runs ++ new_run new_id key req ∷ [])
insert_run-IsSingle new_id key req runs idle single workspace product =
    count-append_one (is_active_run workspace product) runs (new_run new_id key req)
      (λ hit.
        let same_workspace : req.workspace_id ≡ workspace = ground arith in
        let same_product : req.product_id ≡ product = ground arith in
        count-of_find-none (is_active_run workspace product) runs (
          subst (λ w. find (is_active_run w product) runs ≡ none) same_workspace
            (subst (λ p. find (is_active_run req.workspace_id p) runs ≡ none) same_product idle)))
      (single workspace product)

module _ (product_text iso : ℕ → Text) (stripped : Text → Text) where
  create_weekly_run-ok :
      (req : RunRequest) (new_id : ℕ) (runs after : List OperatorRun) (r : OperatorRun)
      → create_weekly_run product_text iso stripped req new_id runs ≡ ok (r, after)
      → (key : Text) × (ltb req.period_start req.period_end ≡ true)
        × (run_key product_text iso stripped req ≡ ok key)
        × (is_empty key ≡ false)
        × ((get_run_by_key req.workspace_id req.product_id key runs ≡ some r) × (runs ≡ after)
            ⊎ (get_run_by_key req.workspace_id req.product_id key runs ≡ none)
              × (find (is_active_run req.workspace_id req.product_id) runs ≡ none)
              × (insert_run new_id key req runs ≡ ok (r, after)))
  unfolding create_weekly_run
  create_weekly_run-ok req new_id runs after r h =
      elim (Result-cases (run_key product_text iso stripped req)) [
        | inr (e, refused) ↦ absurd (ground arith)
        | inl (key, made) ↦
            elim (Option-cases (get_run_by_key req.workspace_id req.product_id key runs)) [
              | inr (old, there) ↦
                  (key, ground arith, made, ground arith, inl (there ∙ ground arith, ground arith))
              | inl free ↦
                  elim (Option-cases (find (is_active_run req.workspace_id req.product_id) runs)) [
                    | inr (a, active) ↦ absurd (ground arith)
                    | inl idle ↦
                        (key, ground arith, made, ground arith, inr (free, idle, ground arith))
                  ]
            ]
      ]

  -- A creation that returns keeps it so that no product has two weekly runs that are pending or
  -- running.
  pub create_weekly_run-IsSingle :
      (req : RunRequest) (new_id : ℕ) (runs after : List OperatorRun) (r : OperatorRun)
      → create_weekly_run product_text iso stripped req new_id runs ≡ ok (r, after)
      → IsSingle runs
      → IsSingle after
  create_weekly_run-IsSingle req new_id runs after r h single =
      let (key, _, _, _, result) = create_weekly_run-ok req new_id runs after r h in
      elim result [
        | inl (there, same) ↦ subst IsSingle same single
        | inr (free, idle, inserted) ↦
            subst IsSingle (sym (insert_run-ok new_id key req runs after r inserted).1)
              (insert_run-IsSingle new_id key req runs idle single)
      ]

  -- Once a creation has returned a run, every creation for the same product with the same key and a
  -- proper period, whatever its other arguments, returns that run and leaves the table.
  pub create_weekly_run-replays :
      (req later : RunRequest) (new_id other_id : ℕ) (runs after : List OperatorRun)
      (r : OperatorRun)
      → create_weekly_run product_text iso stripped req new_id runs ≡ ok (r, after)
      → later.workspace_id ≡ req.workspace_id
      → later.product_id ≡ req.product_id
      → run_key product_text iso stripped later ≡ run_key product_text iso stripped req
      → ltb later.period_start later.period_end ≡ true
      → create_weekly_run product_text iso stripped later other_id after ≡ ok (r, after)
  unfolding create_weekly_run get_run_by_key
  create_weekly_run-replays req later new_id other_id runs after r h same_workspace same_product
        same_key proper =
      let (key, _, made, full, result) = create_weekly_run-ok req new_id runs after r h in
      let found : find (has_run_key req.workspace_id req.product_id key) after ≡ some r =
        elim result [
          | inl (there, same) ↦
              subst (λ xs. find (has_run_key req.workspace_id req.product_id key) xs ≡ some r) same
                there
          | inr (free, idle, inserted) ↦
              let (row, rows) = insert_run-ok new_id key req runs after r inserted in
              let own : has_run_key req.workspace_id req.product_id key (new_run new_id key req)
                  ≡ true =
                ground (arith, same_text_self key) in
              rw rows (
                find-append (has_run_key req.workspace_id req.product_id key) runs
                  (new_run new_id key req ∷ []) free
                ∙ rw own (ap some (sym row)))
        ] in
      let key_again : run_key product_text iso stripped later ≡ ok key = same_key ∙ made in
      let here : find (has_run_key later.workspace_id later.product_id key) after ≡ some r =
        rw (same_workspace, same_product) found in
      ground arith
