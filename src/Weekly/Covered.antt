-- ===== src/Weekly/Covered.antt =====
-- The commands of weekly_growth_service.py and the latest revisions of approved assets: the predicate on
-- stores, and rewrites of the tables.
pub mod Approving
pub mod Moving
pub mod Editing
pub mod Assets
pub mod Steps
use shiptawk_be.Prelude.{
  ℕ, ◌≡◌, refl, sym, ap, subst, ◌∙◌, ◌⊎◌, Bool, true, false, ◌&&◌, Option, none, some, List, [],
  ◌∷◌, ◌++◌, arith, find, find-update, find-update-some, find-update-none, find-holds, update, keep,
  ◌==◌, ==_iff, is_id, same_id, Option-cases, Bool-cases, inl, inr, if◌then◌else◌,
}
use shiptawk_be.Weekly.Store.{
  Tenant, Store, PlanAction, PreparedAsset, ApprovalStatus, is_action, is_exact_asset, is_sibling,
  max_revision, get_action, get_exact_asset, latest_revision,
}

-- The approved asset of an action is there, belongs to it, and has the latest revision.
pub record IsCurrent (t : Tenant) (i : ℕ) (assets : List PreparedAsset) (a : PlanAction)
    : Type 0 where
  pub asset : PreparedAsset
  pub id : a.approved_asset_id ≡ some asset.id
  pub revision : a.approved_asset_revision ≡ some asset.revision
  pub there : find (is_exact_asset t asset.id asset.revision) assets ≡ some asset
  pub owner : asset.action_id ≡ some i
  pub latest :
      max_revision none (keep (is_sibling t asset.recommendation_id (some i)) assets)
      ≡ some asset.revision

-- Only an approved row promises something.
abbrev pub Promises : Tenant → ℕ → List PreparedAsset → PlanAction → ApprovalStatus → Type 0
Promises t i assets a ApprovalStatus.approved = IsCurrent t i assets a
Promises t i assets a _ = Unit

abbrev pub CoversRow : Tenant → ℕ → List PreparedAsset → Option PlanAction → Type 0
CoversRow t i assets none = Unit
CoversRow t i assets (some a) = Promises t i assets a a.approval_status

-- Every approved action of every product is current.
abbrev pub Covers : List PreparedAsset → List PlanAction → Type 0
Covers assets actions = (t : Tenant) (i : ℕ) → CoversRow t i assets (find (is_action t i) actions)

abbrev pub IsCovered : Store → Type 0
IsCovered s = Covers s.assets s.actions

pub tenant_eq : (t t' : Tenant) → t.workspace ≡ t'.workspace → t.product ≡ t'.product → t ≡ t'
tenant_eq t t' same_workspace same_product = cc

-- Two pairs of a tenant and an identifier are the same, or no row has both.
target-cases :
    (t t' : Tenant) (i j : ℕ)
    → ((t ≡ t') × (i ≡ j)) ⊎ ((x : PlanAction) → is_action t' j x ≡ true → is_action t i x ≡ false)
target-cases t t' i j =
    elim (Bool-cases (t.workspace == t'.workspace && t.product == t'.product && i == j)) [
      | inl same ↦ inl (tenant_eq t t' (ground arith) (ground arith), ground arith)
      | inr differ ↦ inr (λ x hit. ground arith)
    ]

-- Rewriting the row of one action keeps every promise if it keeps that row's.
pub update-CoversRow :
    (t : Tenant) (i : ℕ) (f : PlanAction → PlanAction)
    → ((t' : Tenant) (j : ℕ) (x : PlanAction) → is_action t' j (f x) ≡ is_action t' j x)
    → (assets : List PreparedAsset) (actions : List PlanAction)
    → ((a : PlanAction)
        → find (is_action t i) actions ≡ some a
        → CoversRow t i assets (some a)
        → CoversRow t i assets (some (f a)))
    → ((t' : Tenant) (j : ℕ) → CoversRow t' j assets (find (is_action t' j) actions))
    → (t' : Tenant) (j : ℕ)
    → CoversRow t' j assets (find (is_action t' j) (update (is_action t i) f actions))
update-CoversRow t i f same assets actions own covered t' j = elim (target-cases t t' i j) [
  | inr apart ↦
      subst (CoversRow t' j assets)
        (sym (find-update (is_action t' j) (is_action t i) f (same t' j) apart actions))
        (covered t' j)
  | inl (same_tenant, same_action) ↦
      subst (λ u. CoversRow u j assets (find (is_action u j) (update (is_action t i) f actions)))
        same_tenant
        (subst (λ k. CoversRow t k assets (find (is_action t k) (update (is_action t i) f actions)))
          same_action own_row)
]
  where
    own_row : CoversRow t i assets (find (is_action t i) (update (is_action t i) f actions))
    own_row = elim (Option-cases (find (is_action t i) actions)) [
      | inl gone ↦
          subst (CoversRow t i assets)
            (sym (find-update-none (is_action t i) (is_action t i) f (same t i) actions gone)) tt
      | inr (a, there) ↦
          let row = find-update-some (is_action t i) (is_action t i) f (same t i) actions a there in
          let hit = find-holds (is_action t i) actions there in
          let found : find (is_action t i) (update (is_action t i) f actions) ≡ some (f a) =
            row ∙ ap (λ b. some (if b then f a else a)) hit in
          subst (CoversRow t i assets) (sym found)
            (own a there (subst (CoversRow t i assets) there (covered t i)))
    ]

-- A rewrite that leaves the approval of a row alone keeps its promise.
pub same_approval-CoversRow :
    (t : Tenant) (i : ℕ) (assets : List PreparedAsset) (a b : PlanAction)
    → b.approval_status ≡ a.approval_status
    → b.approved_asset_id ≡ a.approved_asset_id
    → b.approved_asset_revision ≡ a.approved_asset_revision
    → CoversRow t i assets (some a)
    → CoversRow t i assets (some b)
same_approval-CoversRow t i assets a b same_status same_asset same_revision h =
    subst (Promises t i assets b) (sym same_status) (kept a.approval_status h)
  where
    kept : (status : ApprovalStatus) → Promises t i assets a status → Promises t i assets b status
    kept ApprovalStatus.approved h = record {
      asset = h.asset;
      id = same_asset ∙ h.id;
      revision = same_revision ∙ h.revision;
      there = h.there;
      owner = h.owner;
      latest = h.latest;
    }
    kept ApprovalStatus.not_required h = tt
    kept ApprovalStatus.pending h = tt
    kept ApprovalStatus.rejected h = tt
