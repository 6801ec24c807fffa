-- ===== src/Messages.antt =====
-- The messages of the provider and of modules/rpc.go.
pub mod Terms
pub mod Contracts
pub mod Settings
pub mod Files
pub mod Metadata
pub mod Uploads
pub mod Stored
pub mod Requests
pub mod Appends
