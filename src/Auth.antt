-- ===== src/Auth.antt =====
-- Who a caller is and what it may do: backend/src/auth/rbac.ts, the session part of
-- backend/src/services/authService.ts and backend/src/middleware/jwtAuth.ts.
pub mod Roles
pub mod Revocation
pub mod Session
pub mod Guards
pub mod Scopes
