-- ===== src/Weekly.antt =====
-- The weekly growth operator: app/modules/operator/policies/weekly_growth_policy.py and the commands
-- on plan actions of app/modules/operator/services/weekly_growth_service.py.
pub mod Policy
pub mod Lifecycle
pub mod Store
pub mod Commands
pub mod Frames
pub mod Covered
pub mod Runs
pub mod Risk
