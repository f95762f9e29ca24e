-- ===== src/Auth.antt =====
-- resourcey/auth: policies and the service that enforces them.
pub mod Policy
pub mod Rbac
pub mod OauthTokens
pub mod Roles
pub mod Service
