-- ===== src/ApplyClient.antt =====
-- pkg/client/client.go: objects are created, or updated when their configuration has changed. A nil
-- map is an empty one. The object that the caller keeps is not modelled after the call.
pub mod Objects
pub mod Apply
pub mod Stored
pub mod Idempotence
pub mod Retention
pub mod Tests
