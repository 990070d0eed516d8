-- ===== src/Weekly/Covered/Editing.antt =====
-- A new asset revision, and a withdrawn approval, in the tables of assets and actions.
use shiptawk_be.Prelude.{
  ℕ, ◌≡◌, refl, sym, ap, subst, ◌∙◌, ◌⊎◌, false, ◌&&◌, Option, none, some, List, [], ◌∷◌, ◌++◌,
  arith, find, find-append_some, find-holds, find-update-some, find-update-none, update,
  keep-append_miss, ◌==◌, same_id, same_id_iff, Option-cases, Bool-cases, inl, inr, if◌then◌else◌,
}
use shiptawk_be.Weekly.Store.{
  Tenant, PlanAction, PreparedAsset, ApprovalStatus, is_action, is_sibling, is_exact_asset,
  max_revision,
}
use shiptawk_be.Weekly.Commands.Revise.{withdraw_action}
use shiptawk_be.Weekly.Covered.{Promises, CoversRow, tenant_eq, update-CoversRow}

-- A new asset that is no sibling changes no promise.
append-Promises :
    (t : Tenant) (i : ℕ) (assets : List PreparedAsset) (new : PreparedAsset) (a : PlanAction)
    (status : ApprovalStatus)
    → ((recommendation : ℕ) → is_sibling t recommendation (some i) new ≡ false)
    → Promises t i assets a status
    → Promises t i (assets ++ new ∷ []) a status
append-Promises t i assets new a ApprovalStatus.approved apart h = record {
  asset = h.asset;
  id = h.id;
  revision = h.revision;
  there = find-append_some (is_exact_asset t h.asset.id h.asset.revision) assets (new ∷ []) h.there;
  owner = h.owner;
  latest =
      ap (max_revision none) (
        keep-append_miss (is_sibling t h.asset.recommendation_id (some i)) assets new
          (apart h.asset.recommendation_id))
      ∙ h.latest;
}
append-Promises t i assets new a ApprovalStatus.not_required apart h = tt
append-Promises t i assets new a ApprovalStatus.pending apart h = tt
append-Promises t i assets new a ApprovalStatus.rejected apart h = tt

append-CoversRow :
    (t : Tenant) (i : ℕ) (assets : List PreparedAsset) (new : PreparedAsset)
    (row : Option PlanAction)
    → ((recommendation : ℕ) → is_sibling t recommendation (some i) new ≡ false)
    → CoversRow t i assets row
    → CoversRow t i (assets ++ new ∷ []) row
append-CoversRow t i assets new none apart h = tt
append-CoversRow t i assets new (some a) apart h =
    append-Promises t i assets new a a.approval_status apart h

sibling-cases :
    (t t' : Tenant) (new : PreparedAsset) (j : ℕ)
    → new.workspace_id ≡ t.workspace
    → new.product_id ≡ t.product
    → ((t ≡ t') × (new.action_id ≡ some j))
      ⊎ ((recommendation : ℕ) → is_sibling t' recommendation (some j) new ≡ false)
sibling-cases t t' new j own_workspace own_product =
    elim (Bool-cases
      (t.workspace == t'.workspace && t.product == t'.product && same_id new.action_id (some j))) [
        | inl same ↦
            inl (tenant_eq t t' (ground arith) (ground arith), (same_id_iff _ _).0 (ground arith))
        | inr differ ↦ inr (λ recommendation. ground arith)
      ]

-- The actions after the approval of an owner is withdrawn.
abbrev pub withdrawn_rows : Tenant → Option ℕ → List PlanAction → List PlanAction
withdrawn_rows t none actions = actions
withdrawn_rows t (some i) actions = update (is_action t i) withdraw_action actions

-- A withdrawn row promises nothing, over any assets.
withdrawn-CoversRow :
    (t : Tenant) (i : ℕ) (assets : List PreparedAsset) (actions : List PlanAction)
    → CoversRow t i assets (find (is_action t i) (update (is_action t i) withdraw_action actions))
withdrawn-CoversRow t i assets actions = elim (Option-cases (find (is_action t i) actions)) [
  | inl gone ↦
      subst (CoversRow t i assets)
        (sym (
          find-update-none (is_action t i) (is_action t i) withdraw_action (λ x. refl) actions
            gone))
        tt
  | inr (a, there) ↦
      let row =
        find-update-some (is_action t i) (is_action t i) withdraw_action (λ x. refl) actions a
          there in
      let hit = find-holds (is_action t i) actions there in
      subst (CoversRow t i assets)
        (sym (row ∙ ap (λ b. some (if b then withdraw_action a else a)) hit)) tt
]

-- A new asset of an owner, and the owner's approval withdrawn.
pub revised-CoversRow :
    (t : Tenant) (new : PreparedAsset) (assets : List PreparedAsset) (actions : List PlanAction)
    → new.workspace_id ≡ t.workspace
    → new.product_id ≡ t.product
    → ((t' : Tenant) (j : ℕ) → CoversRow t' j assets (find (is_action t' j) actions))
    → (t' : Tenant) (j : ℕ)
    → CoversRow t' j
        (assets ++ new ∷ [])
        (find (is_action t' j) (withdrawn_rows t new.action_id actions))
revised-CoversRow t new assets actions own_workspace own_product covered t' j =
    elim (sibling-cases t t' new j own_workspace own_product) [
      | inl (same, owner) ↦
          subst
            (λ u.
              CoversRow u j (assets ++ new ∷ [])
                (find (is_action u j) (withdrawn_rows t new.action_id actions)))
            same
            (subst
              (λ o.
                CoversRow t j (assets ++ new ∷ [])
                  (find (is_action t j) (withdrawn_rows t o actions)))
              (sym owner) (withdrawn-CoversRow t j (assets ++ new ∷ []) actions))
      | inr apart ↦ append-CoversRow t' j assets new _ apart (rows new.action_id)
    ]
  where
    rows :
        (owner : Option ℕ)
        → CoversRow t' j assets (find (is_action t' j) (withdrawn_rows t owner actions))
    rows none = covered t' j
    rows (some i) =
        update-CoversRow t i withdraw_action (λ u k x. refl) assets actions (λ a found before. tt)
          covered t' j
