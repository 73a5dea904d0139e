-- ===== src/Tests.antt =====
-- Concrete data and runs: a database in memory that has the laws which the theorems ask of gorm,
-- small requests, and the theorems at them.
pub mod Memory
pub mod Data
pub mod Witnesses
pub mod Runs
pub mod Buyers
pub mod Auth
pub mod Categories
pub mod Products
pub mod Files
pub mod Intents
