-- ===== src/Trading.antt =====
-- The packages trading and trading/strategies.
pub mod Float
pub mod Messages
pub mod Risk
pub mod Orders
pub mod Market
pub mod Strategies
pub mod System
pub mod Flow
mod Tests
