-- ===== src/Sched/Account.antt =====
-- The account of free cpus through a whole pass of `sched`: `num_free_vcpu` is the number of cpus
-- that are free by themselves and of those that were kicked and have not woken.
mod Steps
mod Pass
mod Begin
pub use Steps.{wake_up_event-IsAccounted, restart-IsAccounted}
pub use Pass.{Returns, IsAwake, sched-IsAccounted, after_hlt-IsAccounted}
pub use Begin.{IsLoaded, begun, begun-sched-IsAccounted}
