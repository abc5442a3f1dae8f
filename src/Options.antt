-- ===== src/Options.antt =====
-- The options of a fence agent.
pub mod Spec
pub mod Table
pub mod Actions
pub mod Dependency
pub mod Closure
pub mod Defaults
pub mod Validate
pub mod Metadata
pub mod Check
pub mod Stdin
pub mod CommandLine
mod Tests
