-- ===== src/Cluster.antt =====
-- The package `cluster`: members, their agent, the self-managed provider and the client's view.
pub mod Member
pub mod MemberSet
pub mod Activation
pub mod Messages
pub mod Agent
pub mod Provider
pub mod Client
pub mod Consul
mod Tests
