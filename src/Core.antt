-- ===== src/Core.antt =====
-- latent-core/src: the shared types of the workspace.
pub mod Hash
pub mod Json
pub mod Record
