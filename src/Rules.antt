-- ===== src/Rules.antt =====
-- internal/rules/rules.go: the rule engine. The regular expressions, the addresses and the text
-- functions of the standard library are parameters.
pub mod Rule
pub mod Registry
pub mod Library
pub mod Match
pub mod Inspect
pub mod Aliasing
pub mod Deletion
pub mod Priority
pub mod Defaults
pub mod LostUpdate
mod Tests
