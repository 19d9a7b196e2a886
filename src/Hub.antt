-- ===== src/Hub.antt =====
-- packages/hub/src: the control plane. `Types` has the records, `Registry` registry.ts, `IdleStop`
-- idle-stop.ts and `Core` hub.ts, with the calls that wait cut into their parts in `Awaits`; the other
-- children say what holds of them.
pub mod Types
pub mod Registry
pub mod IdleStop
pub mod Core
pub mod Awaits
pub mod Calls
pub mod Durable
pub mod Kept
pub mod Names
pub mod Windows
pub mod Threads
pub mod Overtaken
pub mod Parts
pub mod Armed
pub mod Tests
