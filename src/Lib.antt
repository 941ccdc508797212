-- ===== src/Lib.antt =====
-- Verification of toolchain-common, the library that the toolchain operators share.
--
-- The program is a set of packages that the host and member operators call. Each is modelled by a
-- module of its own; an operation is a function with the name of the Go function in this language's
-- spelling, its mutable state is an argument and a result, and an error is a value.
--
-- * Condition (pkg/condition/condition.go): conditions of a resource, and the functions that add,
--   update and query them. `metav1.Now` is a clock that is read once for each update.
-- * States (pkg/states/state_manager.go): the states of a UserSignup and their setters.
-- * SpaceBinding (pkg/spacebinding): the search for bindings over parent Spaces, and new bindings. The
--   search is on fuel; a rank of Spaces gives enough of it, and on a cycle none is enough.
-- * Cluster (pkg/cluster): Cache is the map of cached clusters, Config reads a ToolchainCluster's
--   connection, Service fills the cache. A method that takes the lock is one step on the map, and
--   the order of a range over the map is a parameter.
-- * UserSignup (pkg/usersignup/usersignup.go): compliant names and encoded subjects, over characters.
--   The loop over double dashes has the length of the name as fuel, which is enough.
-- * Configuration (pkg/configuration): optional values, the environment as explicit state, Secrets and
--   ConfigMaps, the cache of the latest configuration, and memberoperatorconfig, which reads it.
-- * ResourceCache (pkg/client/resource_cache.go): the API resources, listed once.
-- * Owners (pkg/owners/fetcher.go): the owners of an object, over the resource cache as state. The
--   recursion is on fuel, as it is for SpaceBindings.
-- * ApplyClient (pkg/client/client.go): creation and update of objects on a cluster, which is a state
--   that the library's client reads and changes. Objects holds the data, Apply the operations.
-- * Status (pkg/status, and CanIssueGitHubRequest of pkg/client/github_client.go): conditions of
--   components, deployments, cluster connections and deployed versions.
-- * SsaClient (pkg/client/ssa_client.go): server-side apply, with the migration of managed fields.
--   Client holds the data and the operations.
-- * Controllers (controllers): Monitor checks the health of a cluster and writes its status, over
--   Condition and the cache of Cluster; CacheSync keeps that cache up to date, over its service;
--   Resources applies the objects of a template by SsaClient and maps events to requests.
-- * Templates (pkg/template): Process sets parameters and filters objects, Load reads a file system.
-- * Tiers (pkg/template/nstemplatetiers/nstemplatetier_generator.go): Files dispatches the files by tiers,
--   TierTemplates and NsTemplateTiers make the resources of each tier, and Generate ensures them. A nil
--   pointer that the code reads is the result `panicked`.
-- * Notification (pkg/notification/notification_builder.go): the options of a notification, and Create.
-- * Resources (pkg/identity, pkg/banneduser, pkg/proxy, pkg/predicate, pkg/client/object.go, pkg/utils):
--   Identity, BannedUser, Workspace, Predicate, Objects and Texts.
-- * Base holds what they share: equality tests, lists, maps as association lists, results and texts.
--   Api holds the constants of the API module, which are parameters.
--
-- The Kubernetes client, client-go, GitHub, JSON, YAML, the template libraries, checksums, Unicode,
-- sorting and the clock are parameters; a theorem that needs more of them than their type has a hypothesis
-- that says so. Not modelled are the set-up of controllers with a manager, which calls the library;
-- pkg/hash and pkg/socialevent, which are a few calls of libraries each; and the support for
-- tests (pkg/test). Logging and the locks themselves are left out.
pub mod Base
pub mod Api
pub mod Condition
pub mod States
pub mod SpaceBinding
pub mod Cluster
pub mod UserSignup
pub mod Configuration
pub mod ResourceCache
pub mod Owners
pub mod ApplyClient
pub mod Status
pub mod SsaClient
pub mod Controllers
pub mod Templates
pub mod Tiers
pub mod Notification
pub mod Resources
