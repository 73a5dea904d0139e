-- ===== src/Buyers.antt =====
-- backend/internal/app/buyer_handlers.go: what buyers and guests keep of the shop. A guest is known
-- by a device, a buyer by an account, and the guest's rows are merged into the buyer's on request.
pub mod Owner
pub mod Favorites
pub mod Histories
pub mod Merge
pub mod Keeps
