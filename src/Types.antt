-- ===== src/Types.antt =====
-- src/types: the data types of the protocol.
pub mod Payload
pub mod Trust
pub mod Verification
pub mod Error
pub mod Contract
pub mod Provenance
pub mod Capability
pub mod Identity
pub mod Session
pub mod Messages
