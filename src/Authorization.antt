-- ===== src/Authorization.antt =====
-- internal/authorization: policies of collections and documents, and their enforcement.
pub mod Policy
pub mod Enforcer
