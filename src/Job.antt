-- ===== src/Job.antt =====
-- The job-control model: job/job.go and job/growbuf.go.
pub mod Buffer
pub mod State
pub mod Control
mod Effects
mod Tests
pub mod Steps
pub mod Sound
pub mod Lost
pub mod Commands
pub mod Manager
pub mod Files
