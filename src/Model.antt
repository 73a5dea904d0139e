-- ===== src/Model.antt =====
-- backend/internal/model/models.go: the constants and the rows of the tables. The columns
-- that gorm fills by itself (created_at, updated_at) are left out.
pub mod Status
pub mod Shop
pub mod People
pub mod Buyer
