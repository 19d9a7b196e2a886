-- ===== src/Host.antt =====
-- packages/worker/src/session-machine.ts: one thread's run lifecycle. `Types` has the states and events,
-- `Config` what the model and thinking-level commands do, `Run` the work of a run and of a compaction, and
-- `Machine` the transition table.
pub mod Types
pub mod Config
pub mod Run
pub mod Machine
pub mod Lifecycle
pub mod Agreement
pub mod Balance
pub mod Tests
