-- ===== src/Console/Tests.antt =====
-- The console's connection at concrete inputs.
use saku.Base.{none, some, List, [], ◌∷◌, ◌≡◌, refl, arith}
use saku.Console.{
  Conn, AppRoute, RootMessage, Cmd, conn_step, reload, moved, step_conn, came_up, update, init,
}
use saku.Console.Dialing.{
  dials, answers, boot, land, land_all, attempts, AllAnswers, land_all-attempts, Console,
}
use saku.Console.Reads.{reads, issued, due, all_due, issued-reads}

-- A connection that fails, is tried again and comes up.
abbrev retried : List RootMessage
retried =
    RootMessage.connect_failed "refused"
    ∷ RootMessage.retry_requested
    ∷ RootMessage.connection_closed
    ∷ RootMessage.connected 7 "1"
    ∷ []

retried-AllAnswers : AllAnswers (boot (AppRoute.thread "t")) retried
unfolding boot init land update step_conn conn_step moved came_up answers dials reload
retried-AllAnswers = (omega (arith), (omega (arith), (omega (arith), (omega (arith), tt))))

land_all-attempts_example :
    (land_all (boot (AppRoute.thread "t")) retried).in_flight
    ≡ attempts (land_all (boot (AppRoute.thread "t")) retried).model.conn
land_all-attempts_example = land_all-attempts (AppRoute.thread "t") retried retried-AllAnswers

-- A console that lost its connection with a trail loaded.
abbrev lost : Console
lost = record {
  model = record {
    banner = none;
    conn = Conn.offline (some "connection closed");
    route = AppRoute.thread "t";
    tail_seq = some 4;
  };
  in_flight = 0;
}

abbrev reconnected : List RootMessage
reconnected = RootMessage.retry_requested ∷ RootMessage.connected 7 "1" ∷ []

reconnected-AllAnswers : AllAnswers lost reconnected
unfolding land update step_conn conn_step moved came_up answers dials
reconnected-AllAnswers = (omega (arith), (omega (arith), tt))

lost-dialing : lost.in_flight ≡ attempts lost.model.conn
unfolding attempts
lost-dialing = refl

-- Its reads on the way back.
reconnected-reads :
    reads (issued lost reconnected)
    ≡ Cmd.refresh_rail ∷ Cmd.load_trail "t" (some 4) ∷ Cmd.load_state "t" ∷ []
unfolding all_due due reload
reconnected-reads = issued-reads lost reconnected reconnected-AllAnswers lost-dialing
