-- ===== src/Access.antt =====
-- Who may read and write what: the tenant boundary, authentication, and the rules on email and on
-- memory.
pub mod TenantContext
pub mod EmailPolicy
pub mod Scope
pub mod MemorySafety
pub mod ReviewIdentity
pub mod Authentication
