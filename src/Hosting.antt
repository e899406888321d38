-- ===== src/Hosting.antt =====
-- apps/api/src/hosting: the classification of the projects that precede the hosting services.
pub mod LegacyClassification
mod Tests
