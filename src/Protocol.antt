-- ===== src/Protocol.antt =====
-- src/protocol.rs. `Types` has its data, `Fields` reads the fields of a response, `Requests` builds
-- the URLs, and `NoteInfo`, `Mutation` and `Minting` read the responses.
pub mod Types
pub mod Fields
pub mod Refusal
pub mod Requests
pub mod NoteInfo
pub mod Mutation
pub mod Minting
