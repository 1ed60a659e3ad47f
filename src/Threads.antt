-- ===== src/Threads.antt =====
-- code/threads: the linked list that the queues of the kernel are made of.
pub mod LinkedList
pub mod Scheduler
pub mod Lock
pub mod Tid
