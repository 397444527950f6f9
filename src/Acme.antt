-- ===== src/Acme.antt =====
-- acme/: the ACME server.
pub mod Nonces
pub mod State
pub mod Names
pub mod Orders
