-- ===== src/Samples.antt =====
-- The theorems at concrete inputs.
mod Queues
pub mod Processes
pub mod Frames
pub mod Nucleus
pub mod Semaphores
pub mod Waiting
mod Families
mod Signals
mod Births
