-- ===== src/Scene.antt =====
-- Designs and what a customer may change of them: packages/render-schema/src/index.ts and the
-- checks of apps/api/src/embed.ts that a scene passes before it is stored.
pub mod Types
pub mod Config
pub mod Match
pub mod Default
pub mod Locks
pub mod Examples
