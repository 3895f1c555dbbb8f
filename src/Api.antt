-- ===== src/Api.antt =====
-- The data types of the API (package `api/v1`).
pub mod ValidatorState
pub mod Event
pub mod Blinded
pub mod SignedBlinded
