-- ===== src/Cluster.antt =====
-- pkg/cluster: cache.go keeps the clusters that the operator is connected to, service.go fills that
-- cache from the ToolchainCluster resources. REST configurations and clients are of unknown types
-- `R` and `C`; a nil client is `none`. Each method that takes the lock is one step on the map.
pub mod Cache
pub mod Config
pub mod Service
pub mod CacheLaws
pub mod ServiceLaws
pub mod Invariant
pub mod RefreshLaws
pub mod Tests
