-- ===== src/Session.antt =====
-- packages/worker/src: the session trail. `Types` has the vocabulary of the log, `State` the
-- in-memory core of session-state.ts, and the other children what holds of it.
pub mod Types
pub mod State
pub mod Accepted
pub mod Invariant
pub mod Query
pub mod Replayable
pub mod Walk
pub mod Fork
pub mod Storage
pub mod Repo
pub mod Tests
