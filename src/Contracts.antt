-- ===== src/Contracts.antt =====
-- src/contracts: the integration events that components exchange, and their publication.
pub mod Events
pub mod Publisher
