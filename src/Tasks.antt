-- ===== src/Tasks.antt =====
-- The two threads that run the program's work: the scheduler, which waits for the time of an event,
-- and the dispatcher, which runs one task after the other.
pub mod Task
pub mod Scheduler
pub mod Dispatcher
mod Examples
