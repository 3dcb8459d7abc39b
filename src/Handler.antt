-- ===== src/Handler.antt =====
-- Package `handler` (internal/handler): the HTTP endpoints of the API.
pub mod Response
pub mod ServiceError
pub mod Failed
pub mod Request
pub mod Account
pub mod Transaction
