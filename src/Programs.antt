-- ===== src/Programs.antt =====
-- The small programs beside the library, which show how each part is used.
pub mod Asking
pub mod Fetching
pub mod Tracing
mod Examples
