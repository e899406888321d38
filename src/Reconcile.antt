-- ===== src/Reconcile.antt =====
-- apps/api/src/store: the settings of the reconciler of deployments and its back-off.
mod Tests
pub mod Settings
pub mod Validation
