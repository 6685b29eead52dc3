-- ===== src/Processing.antt =====
-- src/processing but for the parser: the services that are asked, and the job of the queue.
pub mod Services
pub mod Files
pub mod Reading
pub mod Job
pub mod Workers
