-- ===== src/Ringbuffer/Refine.antt =====
-- The operations of include/jau/ringbuffer.hpp refine those of the bounded queue, in every mode and
-- whatever the other side does while they wait.
pub mod Acts
pub mod Calls
pub mod Run
