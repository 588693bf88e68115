-- ===== src/Memory/Cases.antt =====
-- How the two methods of the in-memory store that write can end.
mod Create
mod Transfer
pub use Create.*
pub use Transfer.*
