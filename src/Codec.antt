-- ===== src/Codec.antt =====
-- The decimal and hexadecimal texts in which the API writes numbers and byte arrays: what the
-- program uses of Go's `strconv`, `encoding/hex` and `fmt`.
pub mod Decimal
pub mod Hex
pub mod Big
pub mod Panics
pub mod Payload
pub mod Fields
pub mod Tests
