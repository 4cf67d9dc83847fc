-- ===== src/Sanitize.antt =====
-- src/security/sanitize.ts: shell-active syntax in stored text. A string is the list of its UTF-16
-- code units. `Units` has the tests on units, `Chains` the line-leading operators, `Escape`, `Strip`
-- and `Detect` the three entry points.
pub mod Units
pub mod Chains
pub mod Strip
pub mod Escape
pub mod Detect
pub mod Insertion
pub mod Breaking
pub mod Lines
pub mod LeadingChains
pub mod Escaped
pub mod Shrinking
pub mod Stripped
pub mod Nesting
mod Examples
