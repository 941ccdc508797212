-- ===== src/Configuration.antt =====
-- pkg/configuration: get.go reads optional values, load.go reads the environment, Secrets and
-- ConfigMaps, cache.go keeps the latest configuration, and memberoperatorconfig reads it.
pub mod Get
pub mod Load
pub mod Cache
pub mod MemberOperator
pub mod LoadLaws
pub mod CacheLaws
pub mod MemberOperatorLaws
pub mod Tests
