-- ===== src/Versioning.antt =====
-- contexts/versioning: names, the repository table, foreign-key closures, sync preferences, branches,
-- commits that clients push, and the router.
pub mod Names
pub mod Closure
pub mod Types
pub mod Repos
pub mod Preferences
pub mod Cli
pub mod Branches
pub mod History
pub mod Imports
pub mod Mutex
pub mod Router
mod Tests
mod ServiceTests
mod RouterTests
mod MutexTests
