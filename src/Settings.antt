-- ===== src/Settings.antt =====
-- The settings of the AI services and the tour of a new user: features/settings/ai,
-- features/onboarding and lib/utils.ts of the frontend.
pub mod Models
pub mod Tour
mod Examples
