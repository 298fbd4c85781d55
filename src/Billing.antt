-- ===== src/Billing.antt =====
-- src/modules/billing: the webhook inbox, and what a tenant is entitled to.
pub mod Json
pub mod Inbox
pub mod Events
pub mod Verifier
pub mod Webhooks
pub mod Entitlements
pub mod Examples
