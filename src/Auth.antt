-- ===== src/Auth.antt =====
-- backend/internal/app/auth_handlers.go, admin_security.go, admin_accounts.go and the change of
-- password of merchant_handlers.go: sessions from login to logout, and what revokes them.
pub mod Password
pub mod Tokens
pub mod Accounts
pub mod Revoked
