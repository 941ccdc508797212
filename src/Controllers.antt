-- ===== src/Controllers.antt =====
-- controllers: the reconcilers of ToolchainClusters and of their resources. The set-up with a manager
-- is not modelled.
pub mod Monitor
pub mod StatusLaws
pub mod MonitorLaws
pub mod CacheSync
pub mod CacheSyncLaws
pub mod Resources
pub mod ResourcesLaws
pub mod Tests
pub mod ResourcesTests
