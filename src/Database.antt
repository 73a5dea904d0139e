-- ===== src/Database.antt =====
-- The database as the handlers see it: its tables, the interface of gorm, the statements, and the
-- rules by which a property of every row is carried through a handler.
pub mod Tables
pub mod Keys
pub mod Holds
pub mod Gorm
pub mod Actions
pub mod Keeps
pub mod Invert
pub mod Atomic
pub mod KeepsAt
pub mod Leaves
pub mod KeepsTable
