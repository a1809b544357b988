-- ===== src/Sched.antt =====
-- src/sched.c: the scheduler of the virtual cpus. The operations stand in the children State, Queue,
-- Dag, Wake, Init and Loop, in the order of the file's layers; the others prove them.
pub mod State
pub mod Queue
pub mod Dag
pub mod Wake
pub mod Init
pub mod Loop
pub mod Tally
pub mod Account
pub mod Order
pub mod Many
pub mod Main
mod Tests
