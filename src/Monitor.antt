-- ===== src/Monitor.antt =====
-- dt-common/src/monitor: the counters behind the reports of a task.
pub mod TimeWindow
