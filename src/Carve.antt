-- ===== src/Carve.antt =====
-- latent-carve/src: the extractor interface, the EVTX format and the registry.
pub mod Extractor
pub mod Evtx
pub mod Registry
