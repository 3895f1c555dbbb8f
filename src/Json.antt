-- ===== src/Json.antt =====
-- The JSON of the types of the API and of the consensus layer: `MarshalJSON` and `UnmarshalJSON` of
-- api/v1/ and spec/, between a value and the structure of texts that `encoding/json` writes and reads.
pub mod Duties
pub mod Events
pub mod Chain
pub mod Attestations
pub mod Headers
pub mod Operations
pub mod Bits
pub mod Aggregates
pub mod Payload
pub mod PayloadHeader
pub mod Execution
pub mod Samples
pub mod Api
pub mod Phase0
pub mod Tests
