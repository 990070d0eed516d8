-- ===== src/Weekly/Frames.antt =====
-- What the shared parts of the commands leave alone.
use shiptawk_be.Prelude.{ℕ, ◌≡◌, ◌∙◌, Option, arith, ok}
use shiptawk_be.Text.{Text}
use shiptawk_be.Weekly.Store.{Tenant, Store, ProductEvent}
use shiptawk_be.Weekly.Commands.{write_product_event, project_x_asset_to_draft}

-- The tables of actions, assets, approvals, reviews, action events and receipts are the same.
pub record Keeps (s after : Store) : Type 0 where
  pub actions : after.actions ≡ s.actions
  pub assets : after.assets ≡ s.assets
  pub approvals : after.approvals ≡ s.approvals
  pub reviews : after.reviews ≡ s.reviews
  pub action_events : after.action_events ≡ s.action_events
  pub receipts : after.receipts ≡ s.receipts

pub write_product_event-Keeps :
    (new : ProductEvent) (s : Store) {after : Store}
    → write_product_event new s ≡ ok after
    → Keeps s after
unfolding write_product_event
write_product_event-Keeps new s {after} h = ground arith

pub project-Keeps :
    (post_of : Text → Option Text) (t : Tenant) (i r now new_id : ℕ) (s : Store) {after : Store}
    → project_x_asset_to_draft post_of t i r now new_id s ≡ ok after
    → Keeps s after
unfolding project_x_asset_to_draft
project-Keeps post_of t i r now new_id s {after} h = ground arith

pub Keeps-trans : {a b c : Store} → Keeps a b → Keeps b c → Keeps a c
Keeps-trans h k = record {
  actions = k.actions ∙ h.actions;
  assets = k.assets ∙ h.assets;
  approvals = k.approvals ∙ h.approvals;
  reviews = k.reviews ∙ h.reviews;
  action_events = k.action_events ∙ h.action_events;
  receipts = k.receipts ∙ h.receipts;
}
