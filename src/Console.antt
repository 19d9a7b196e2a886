-- ===== src/Console.antt =====
-- packages/frontend/src: the console's connection to the wire. conn/machine.ts has the machine, and
-- root/update.ts steps it with the messages that land and issues its commands; root/init.ts boots it. Of
-- the root's messages, those that the rail and the thread pane take over and the change of the route are
-- left out: they neither step the machine nor dial.
pub mod Dialing
pub mod Reads
mod Tests
use saku.Base.{ℕ, String, Option, none, some, List, [], ◌∷◌, ◌++◌}

pub data Conn : Type 0 where
  connecting : Conn
  online : (pid : ℕ) → (version : String) → Conn
  offline : (error : Option String) → Conn

pub data AppRoute : Type 0 where
  thread : (id : String) → AppRoute
  threads : AppRoute

pub data RootMessage : Type 0 where
  connected : (pid : ℕ) → (version : String) → RootMessage
  connect_failed server_error_notice : (message : String) → RootMessage
  connection_closed retry_requested dismiss_banner navigated navigated_to : RootMessage

pub data Cmd : Type 0 where
  wire_connect refresh_rail : Cmd
  load_trail : (id : String) → (since_seq : Option ℕ) → Cmd
  load_state : (id : String) → Cmd

-- A message without an edge from the state is ignored and leaves the state.
pub data StepResult : Type 0 where
  ignored : (state : Conn) → StepResult
  transitioned : (state : Conn) → (commands : List Cmd) → StepResult

-- `tail_seq` is the tail of the thread's trail, once one is loaded.
pub record Model : Type 0 where
  pub banner : Option String
  pub conn : Conn
  pub route : AppRoute
  pub tail_seq : Option ℕ

unfoldable pub conn_step : Conn → RootMessage → StepResult
conn_step Conn.connecting (RootMessage.connect_failed message) =
    StepResult.transitioned (Conn.offline (some message)) []
conn_step Conn.connecting (RootMessage.connected pid version) =
    StepResult.transitioned (Conn.online pid version) (Cmd.refresh_rail ∷ [])
conn_step (Conn.offline _) (RootMessage.connect_failed message) =
    StepResult.transitioned (Conn.offline (some message)) []
conn_step (Conn.offline _) (RootMessage.connected pid version) =
    StepResult.transitioned (Conn.online pid version) (Cmd.refresh_rail ∷ [])
conn_step (Conn.offline _) RootMessage.connection_closed =
    StepResult.transitioned (Conn.offline (some "connection closed")) []
conn_step (Conn.offline _) RootMessage.retry_requested =
    StepResult.transitioned Conn.connecting (Cmd.wire_connect ∷ [])
conn_step (Conn.online _ _) RootMessage.connection_closed =
    StepResult.transitioned (Conn.offline (some "connection closed")) []
conn_step state _ = StepResult.ignored state

-- The reads that the pane issues when the connection comes up.
unfoldable pub reload : AppRoute → Option ℕ → List Cmd
reload (AppRoute.thread id) tail_seq = Cmd.load_trail id tail_seq ∷ Cmd.load_state id ∷ []
reload AppRoute.threads tail_seq = []

unfoldable pub moved : Model → StepResult → Model × List Cmd
moved model (StepResult.ignored state) = (record model { conn = state }, [])
moved model (StepResult.transitioned state commands) = (record model { conn = state }, commands)

unfoldable pub step_conn : Model → RootMessage → Model × List Cmd
step_conn model message = moved model (conn_step model.conn message)

unfoldable pub came_up : Model → StepResult → Model × List Cmd
came_up model (StepResult.ignored state) = (record model { banner = none; conn = state }, [])
came_up model (StepResult.transitioned state commands) =
    (record model { banner = none; conn = state }, commands ++ reload model.route model.tail_seq)

unfoldable pub update : Model → RootMessage → Model × List Cmd
update model (RootMessage.connected pid version) =
    came_up model (conn_step model.conn (RootMessage.connected pid version))
update model (RootMessage.connect_failed message) =
    step_conn model (RootMessage.connect_failed message)
update model RootMessage.connection_closed = step_conn model RootMessage.connection_closed
update model RootMessage.retry_requested = step_conn model RootMessage.retry_requested
update model RootMessage.dismiss_banner = (record model { banner = none }, [])
update model (RootMessage.server_error_notice message) =
    (record model { banner = some message }, [])
update model RootMessage.navigated = (model, [])
update model RootMessage.navigated_to = (model, [])

-- Not connected at boot: the pane's reads wait for the connection.
unfoldable pub init : AppRoute → Model × List Cmd
init route = (
  record { banner = none; conn = Conn.connecting; route = route; tail_seq = none },
  Cmd.wire_connect ∷ [],
)
