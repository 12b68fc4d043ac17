-- ===== src/Job.antt =====
-- pkg/job: the cron jobs of a node. `Types` holds jobs, timers and commands, `Keys` the etcd keys,
-- `Worker` the worker's tables and the operations on them, `Watch` the events that it handles.
pub mod Types
pub mod Keys
pub mod Worker
pub mod Process
pub mod Run
pub mod Skip
pub mod Chain
pub mod EtcdWatch
pub mod Delivery
