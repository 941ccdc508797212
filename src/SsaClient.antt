-- ===== src/SsaClient.antt =====
-- pkg/client/ssa_client.go: objects are applied by server-side apply, and the managed fields that an
-- ordinary client left are handed over first. The object that the caller keeps is not modelled after
-- the call; the log lines and the text of an object's Go type are left out.
pub mod Client
pub mod Migration
pub mod Patches
pub mod Tests
