-- ===== src/Ead.antt =====
-- ikuzo/service/x/ead: the tasks that process EAD files, and the service that keeps them.
pub mod Task
pub mod Service
pub mod Process
mod Tests
