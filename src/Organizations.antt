-- ===== src/Organizations.antt =====
-- src/modules/organizations: tenants, their members and owners, invitations, and the lifecycle.
pub mod Entities
pub mod Repository
pub mod Lifecycle
pub mod Members
pub mod Invitations
pub mod Creation
mod Examples
