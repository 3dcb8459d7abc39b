-- ===== src/Service.antt =====
-- Package `service` (internal/service): what the program does with accounts and transfers.
pub mod Transfer
pub mod Account
pub mod Session
