-- ===== src/Models.antt =====
-- Package `models` (internal/models): the errors, the amounts of money, the entities and the
-- request and response bodies.
pub mod Errors
pub mod Money
pub mod Entities
unfoldable pub use Errors.*
unfoldable pub use Money.*
pub use Entities.*
