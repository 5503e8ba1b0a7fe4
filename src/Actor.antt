-- ===== src/Actor.antt =====
-- The package `actor`: the actor engine of one node.
pub mod Pid
pub mod PidSet
pub mod Messages
pub mod Process
pub mod Opts
pub mod Engine
pub mod EventStream
pub mod EventLog
mod Tests
pub mod Inbox
pub mod Response
pub mod Repeater
pub mod Context
