-- ===== src/Shared.antt =====
-- src/shared but for the logger: the filter that answers exceptions, and the guard that throttles.
pub mod Exceptions
pub mod Throttler
