-- ===== src/Console/Reads.antt =====
-- conn/machine.ts and root/update.ts: what the console reads over the connections that come up.
use saku.Base.{ℕ, Option, List, [], ◌∷◌, ◌++◌, ◌≡◌, refl, ap, ◌∙◌, subst, arith, ◌≤◌}
use saku.Console.{
  Conn, AppRoute, RootMessage, Cmd, Model, conn_step, reload, moved, step_conn, came_up, update,
}
use saku.Console.Dialing.{Console, answers, attempts, land, AllAnswers, land-IsDialing}

-- The commands but for those that dial the wire.
unfoldable pub reads : List Cmd → List Cmd
reads [] = []
reads (Cmd.wire_connect ∷ commands) = reads commands
reads (Cmd.refresh_rail ∷ commands) = Cmd.refresh_rail ∷ reads commands
reads (Cmd.load_trail id n ∷ commands) = Cmd.load_trail id n ∷ reads commands
reads (Cmd.load_state id ∷ commands) = Cmd.load_state id ∷ reads commands

-- All commands that the console issues while messages land.
unfoldable pub issued : Console → List RootMessage → List Cmd
issued w [] = []
issued w (m ∷ ms) = (update w.model m).1 ++ issued (land w m) ms

-- The rail's list and, where the route pins a thread, its trail and its state, once per handshake.
unfoldable pub due : AppRoute → Option ℕ → RootMessage → List Cmd
due route tail_seq (RootMessage.connected _ _) = Cmd.refresh_rail ∷ reload route tail_seq
due route tail_seq _ = []

unfoldable pub all_due : AppRoute → Option ℕ → List RootMessage → List Cmd
all_due route tail_seq [] = []
all_due route tail_seq (m ∷ ms) = due route tail_seq m ++ all_due route tail_seq ms

reads-append : (xs ys : List Cmd) → reads (xs ++ ys) ≡ reads xs ++ reads ys
unfolding reads
reads-append [] ys = refl
reads-append (Cmd.wire_connect ∷ xs) ys = reads-append xs ys
reads-append (Cmd.refresh_rail ∷ xs) ys = ap (◌∷◌ Cmd.refresh_rail) (reads-append xs ys)
reads-append (Cmd.load_trail id n ∷ xs) ys = ap (◌∷◌ (Cmd.load_trail id n)) (reads-append xs ys)
reads-append (Cmd.load_state id ∷ xs) ys = ap (◌∷◌ (Cmd.load_state id)) (reads-append xs ys)

reads-reload : (route : AppRoute) (n : Option ℕ) → reads (reload route n) ≡ reload route n
unfolding reads reload
reads-reload (AppRoute.thread id) n = refl
reads-reload AppRoute.threads n = refl

-- The parts of the model that these messages leave alone.
abbrev place : Model → AppRoute × Option ℕ
place model = (model.route, model.tail_seq)

below_zero : 1 ≤ 0 → ⊥
below_zero h = omega (arith, h)

update-due :
    (model : Model) (c : Conn) (m : RootMessage)
    → answers m ≤ attempts c
    → (reads (update (record model { conn = c }) m).1 ≡ due model.route model.tail_seq m)
      × (place (update (record model { conn = c }) m).0 ≡ place model)
unfolding update step_conn conn_step moved came_up attempts answers reads due
update-due model c (RootMessage.server_error_notice message) h = (refl, refl)
update-due model c RootMessage.dismiss_banner h = (refl, refl)
update-due model c RootMessage.navigated h = (refl, refl)
update-due model c RootMessage.navigated_to h = (refl, refl)
update-due model Conn.connecting (RootMessage.connected pid version) h =
    (ap (◌∷◌ Cmd.refresh_rail) (reads-reload model.route model.tail_seq), refl)
update-due model Conn.connecting (RootMessage.connect_failed message) h = (refl, refl)
update-due model Conn.connecting RootMessage.connection_closed h = (refl, refl)
update-due model Conn.connecting RootMessage.retry_requested h = (refl, refl)
update-due model (Conn.online p v) (RootMessage.connected pid version) h = elim (below_zero h) [ ]
update-due model (Conn.online p v) (RootMessage.connect_failed message) h = (refl, refl)
update-due model (Conn.online p v) RootMessage.connection_closed h = (refl, refl)
update-due model (Conn.online p v) RootMessage.retry_requested h = (refl, refl)
update-due model (Conn.offline e) (RootMessage.connected pid version) h =
    (ap (◌∷◌ Cmd.refresh_rail) (reads-reload model.route model.tail_seq), refl)
update-due model (Conn.offline e) (RootMessage.connect_failed message) h = (refl, refl)
update-due model (Conn.offline e) RootMessage.connection_closed h = (refl, refl)
update-due model (Conn.offline e) RootMessage.retry_requested h = (refl, refl)

place-land : (w : Console) (m : RootMessage) → place (land w m).model ≡ place (update w.model m).0
unfolding land
place-land w m = refl

pub issued-reads :
    (w : Console) (ms : List RootMessage)
    → AllAnswers w ms
    → w.in_flight ≡ attempts w.model.conn
    → reads (issued w ms) ≡ all_due w.model.route w.model.tail_seq ms
unfolding issued all_due reads
issued-reads w [] _ same = refl
issued-reads w (m ∷ ms) (answered, rest) same =
    let (now, placed) =
      update-due w.model w.model.conn m (subst (λ n. answers m ≤ n) same answered) in
    reads-append (update w.model m).1 (issued (land w m) ms)
    ∙ ap (λ l. l ++ reads (issued (land w m) ms)) now
    ∙ ap (◌++◌ (due w.model.route w.model.tail_seq m)) (
        issued-reads (land w m) ms rest (land-IsDialing w m answered same)
        ∙ ap (λ (x : AppRoute × Option ℕ). all_due x.0 x.1 ms) (place-land w m ∙ placed))
