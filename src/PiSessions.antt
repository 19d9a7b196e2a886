-- ===== src/PiSessions.antt =====
-- packages/worker/src/pi-sessions: the sessions of pi's own shell. `Json` and `Common` have the lines of
-- a session file and what both readers share (common.ts), `V3` the reader of version 3 (v3.ts), and its
-- children what holds of a file that is read.
pub mod Json
pub mod Common
pub mod V3
mod Tests
