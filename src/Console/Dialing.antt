-- ===== src/Console/Dialing.antt =====
-- conn/machine.ts and root/update.ts: the attempts to connect that are in flight.
use saku.Base.{ℕ, suc, ◌+◌, ◌-◌, ◌≤◌, Option, List, [], ◌∷◌, ◌≡◌, refl, ◌∙◌, ap, subst, arith}
use saku.Console.{
  Conn, AppRoute, RootMessage, Cmd, Model, conn_step, reload, moved, step_conn, came_up, update,
  init,
}

-- How many of the commands dial the wire.
unfoldable pub dials : List Cmd → ℕ
dials [] = 0
dials (Cmd.wire_connect ∷ commands) = suc (dials commands)
dials (Cmd.refresh_rail ∷ commands) = dials commands
dials (Cmd.load_trail _ _ ∷ commands) = dials commands
dials (Cmd.load_state _ ∷ commands) = dials commands

-- The console, with the number of its dials that have not been answered.
pub record Console : Type 0 where
  pub model : Model
  pub in_flight : ℕ

-- The two messages that answer a dial.
unfoldable pub answers : RootMessage → ℕ
answers (RootMessage.connected _ _) = 1
answers (RootMessage.connect_failed _) = 1
answers _ = 0

unfoldable pub land : Console → RootMessage → Console
land w m = record {
  model = (update w.model m).0;
  in_flight = w.in_flight - answers m + dials (update w.model m).1;
}

unfoldable pub land_all : Console → List RootMessage → Console
land_all w [] = w
land_all w (m ∷ ms) = land_all (land w m) ms

unfoldable pub boot : AppRoute → Console
boot route = record { model = (init route).0; in_flight = dials (init route).1 }

-- A dial is answered at most once, and nothing else answers one.
abbrev pub AllAnswers : Console → List RootMessage → Type 0
AllAnswers w [] = Unit
AllAnswers w (m ∷ ms) = (answers m ≤ w.in_flight) × AllAnswers (land w m) ms

-- What is in flight in a state.
unfoldable pub attempts : Conn → ℕ
attempts Conn.connecting = 1
attempts (Conn.online _ _) = 0
attempts (Conn.offline _) = 0

abbrev IsDialing : Console → Type 0
IsDialing w = w.in_flight ≡ attempts w.model.conn

reload-dials : (route : AppRoute) (tail_seq : Option ℕ) → dials (reload route tail_seq) ≡ 0
unfolding reload dials
reload-dials (AppRoute.thread id) tail_seq = refl
reload-dials AppRoute.threads tail_seq = refl

-- Stepping the machine keeps the count, whichever message lands.
update-dials :
    (model : Model) (c : Conn) (m : RootMessage)
    → answers m ≤ attempts c
    → attempts c - answers m + dials (update (record model { conn = c }) m).1
      ≡ attempts (update (record model { conn = c }) m).0.conn
unfolding update step_conn conn_step moved came_up attempts answers dials
update-dials model c (RootMessage.server_error_notice message) h = omega arith
update-dials model c RootMessage.dismiss_banner h = omega arith
update-dials model c RootMessage.navigated h = omega arith
update-dials model c RootMessage.navigated_to h = omega arith
update-dials model Conn.connecting (RootMessage.connected pid version) h =
    omega (arith, reload-dials model.route model.tail_seq)
update-dials model Conn.connecting (RootMessage.connect_failed message) h = refl
update-dials model Conn.connecting RootMessage.connection_closed h = refl
update-dials model Conn.connecting RootMessage.retry_requested h = refl
update-dials model (Conn.online p v) (RootMessage.connected pid version) h = refl
update-dials model (Conn.online p v) (RootMessage.connect_failed message) h = refl
update-dials model (Conn.online p v) RootMessage.connection_closed h = refl
update-dials model (Conn.online p v) RootMessage.retry_requested h = refl
update-dials model (Conn.offline e) (RootMessage.connected pid version) h =
    omega (arith, reload-dials model.route model.tail_seq)
update-dials model (Conn.offline e) (RootMessage.connect_failed message) h = refl
update-dials model (Conn.offline e) RootMessage.connection_closed h = refl
update-dials model (Conn.offline e) RootMessage.retry_requested h = refl

pub land-IsDialing :
    (w : Console) (m : RootMessage)
    → answers m ≤ w.in_flight
    → w.in_flight ≡ attempts w.model.conn
    → (land w m).in_flight ≡ attempts (land w m).model.conn
unfolding land
land-IsDialing w m h same =
    ap (λ n. n - answers m + dials (update w.model m).1) same
    ∙ update-dials w.model w.model.conn m (subst (λ n. answers m ≤ n) same h)

from-IsDialing :
    (w : Console) (ms : List RootMessage)
    → AllAnswers w ms
    → IsDialing w
    → IsDialing (land_all w ms)
unfolding land_all
from-IsDialing w [] _ same = same
from-IsDialing w (m ∷ ms) (answered, rest) same =
    from-IsDialing (land w m) ms rest (land-IsDialing w m answered same)

-- Whatever messages of the connection, the banner and the navigation land after the boot, if `Connected` and `ConnectFailed` only ever answer a connect
-- command that is still unanswered, one connect command is in flight while the connection is connecting,
-- and none is while it is online or offline.
pub land_all-attempts :
    (route : AppRoute) (ms : List RootMessage)
    → AllAnswers (boot route) ms
    → (land_all (boot route) ms).in_flight ≡ attempts (land_all (boot route) ms).model.conn
unfolding boot init dials attempts
land_all-attempts route ms answered = from-IsDialing (boot route) ms answered refl
