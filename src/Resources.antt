-- ===== src/Resources.antt =====
-- Small packages: pkg/identity, pkg/banneduser, pkg/predicate, pkg/proxy, pkg/utils, and pkg/client/object.go.
pub mod Identity
pub mod IdentityLaws
pub mod BannedUser
pub mod BannedUserLaws
pub mod Workspace
pub mod Predicate
pub mod Objects
pub mod Texts
pub mod ObjectsLaws
pub mod Tests
