-- ===== src/Spec.antt =====
-- The consensus layer's data (the packages under `spec`), one module for each part of it.
pub mod DataVersion
pub mod Blocks
pub mod Versioned
