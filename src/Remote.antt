-- ===== src/Remote.antt =====
-- The package remote: messages between engines.
pub mod Serialize
pub mod Intern
pub mod Writer
pub mod Reader
pub mod Router
pub mod Node
pub mod Table
pub mod Encoded
pub mod RoundTrip
pub mod Across
mod Tests
