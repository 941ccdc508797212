-- ===== src/Status.antt =====
-- pkg/status: conditions that sum up a deployment, a cluster connection and a deployed version. A
-- clock is read as the code reads it; times and durations are nanoseconds. The reasons are constants
-- of codeready-toolchain/api, and a parameter.
pub mod Components
pub mod Version
pub mod Readiness
pub mod Requests
pub mod Tests
