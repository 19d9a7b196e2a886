-- ===== src/Lib.antt =====
-- saku: the parts of the thread platform that keep its promises, and what holds of them.
--
-- A thread's session is a log of mutations. The worker (packages/worker) replays the log into a session
-- state, appends to it and answers queries from it; a host machine per thread drives the agent's runs. The
-- hub (packages/hub) keeps the registry of threads, forwards commands to the workers behind a gate that
-- provisions environments, suspends idle sandboxes, and relays sockets between workers and environment
-- daemons. The console (packages/frontend) folds the events of the active thread into one view.
--
-- Where each part is:
--   Base      helpers: lists measured by native numbers, `Map` for JavaScript's maps and sets of keys, a
--             stable sort, and the trimming of text.
--   Session   packages/worker/src/session-state.ts (`State`, `Query`, `Walk`, `Fork`),
--             session-schemas.ts (`Types`), do-session.ts (`Storage`) and do-session-repo.ts (`Repo`). A
--             method of a session is a function of the state that returns a result; its throws come
--             before its first write, so an error carries no state. What the repository writes before
--             it fails stays in the store that its functions return.
--   Hub       packages/hub/src/registry.ts (`Registry`), idle-stop.ts (`IdleStop`) and hub.ts (`Core`), with
--             `resolveThread` of packages/wire/src/thread.ts. `Calls` has the calls as data, so that a
--             history is a list; the answers of the worker and the provisioner ride the call. A call
--             that waits for them while others run stands in its parts (`Awaits`), so that a history has
--             whole calls and parts in the order in which they run.
--   Live      packages/frontend/src/thread/live.ts.
--   Host      packages/worker/src/session-machine.ts: the transition table, the commands that change the
--             model and the level, and the work of a run and of a compaction.
--   Relay     packages/hub/src/relay-core.ts.
--   Wire      packages/wire/src: server-core.ts (`Server`) and client.ts (`Client`), with the frames of
--             envelope.ts, hello.ts and transport.ts (`Frames`). Both are state machines over lists of events.
--   Console   packages/frontend/src/conn/machine.ts, with the part of root/update.ts that steps it.
--   PiSessions  packages/worker/src/pi-sessions/v3.ts and common.ts: the files of pi's own shell, read into
--             mutations that `Session.Repo` imports. JSON.parse and Date.parse are parameters.
-- A component's file has its definitions; its children say what holds of them, and `Tests` applies that at
-- concrete inputs.
--
-- What stands for what: a JavaScript number that counts or numbers something is a natural number; a cost
-- is one in a unit fine enough to be whole. `undefined` and `null` are `none`. What the code passes on
-- unread, such as a message or an environment handle, is its text. The clock and fresh identifiers are
-- arguments. Writes behind a semaphore, and fibers that never wait, run at once. What the agent library,
-- a worker, a provisioner or a timer answers is an argument of the definition that asks.
--
-- Under the keys of a session, what has the kind of a mutation or the session's identifier is of the
-- declared type; the code checks no more than these two.
--
-- Bounds: the walk to the root runs on fuel, one more than the sequence number of the state. A parent has
-- a smaller sequence number than its child in a valid state, so the fuel is enough, and the branch query
-- is proved to answer. The two loops of the file reader that follow parents have fuel for every key of the
-- map they follow and one or two more, and end in any case.
--
-- Not modelled: the list of sessions, the key-value store under them, the rows and the reconnect
-- schedule of the wire's client, the reducers of the console's rail and thread pane, the environment
-- daemon, the listing of session files and their version 4, the model catalog and credentials, skills,
-- the command line, deployment and the views. They are I/O, glue, or parts that the development does
-- not reach yet. Of the parts above, the auto-title of a run and the frames that pass between two
-- paired sockets are left out.
pub mod Base
pub mod Session
pub mod Hub
pub mod Live
pub mod Host
pub mod Relay
pub mod PiSessions
pub mod Wire
pub mod Console
