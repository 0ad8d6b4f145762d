-- ===== src/Sync.antt =====
-- The framework's shared containers: PoolT.h (the pool of buffers) and QueueT.h (the blocking
-- queue between the threads), with the threads that wait on it.
pub mod Pool
pub mod Queue
