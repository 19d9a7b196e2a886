-- ===== src/Hub/Armed/History.antt =====
-- hub.ts with idle-stop.ts: the armed windows over any history of calls.
use saku.Base.{
  ℕ, String, Bool, true, false, none, some, List, [], ◌∷◌, ◌≡◌, sym, ◌∙◌, inl, inr, Option-cases,
}
use saku.Base.Map.{Map, get, get-put_fresh}
use saku.Hub.Types.{HubRecord}
use saku.Hub.Registry.{Registry, NewThread, new_record, create}
use saku.Hub.IdleStop.{Hub, call, clear_timers}
use saku.Hub.Core.{create_thread, archive_thread, unarchive_thread}
use saku.Hub.Calls.{HubCall, handle, handle_all}
use saku.Hub.Armed.{Suspendable}
use saku.Hub.Armed.Reports.{
  Armed, emit_info-Armed, apply_report-Armed, session_event-Armed, fire-Armed,
}
use saku.Hub.Armed.Commands.{
  run_session_command-Armed, set_archived-Armed, rename_thread-Armed, delete-Suspendable,
  delete_thread-Armed,
}

-- A call that runs to its end before anything else does; a thread that it creates has an identifier that
-- no thread has.
abbrev pub IsUnused : Hub → HubCall → Type 0
IsUnused h (HubCall.creates id now input worker_created) = get id h.registry.records ≡ none
IsUnused h (HubCall.begins_create _ _ _) = ⊥
IsUnused h (HubCall.resumes _) = ⊥
IsUnused h _ = Unit

abbrev pub AllUnused : Hub → List HubCall → Type 0
AllUnused h [] = Unit
AllUnused h (c ∷ cs) = IsUnused h c × AllUnused (handle h c) cs

off :
    (reg : Registry) (armed : Map (Unit {0})) (id : String)
    → get id reg.records ≡ none
    → Suspendable reg armed
    → get id armed ≡ none
off reg armed id unused w = elim (Option-cases (get id armed)) [
  | inl missing ↦ missing
  | inr (u, on) ↦ let (r, there, can) = w id on in cc (sym unused ∙ there)
]

create-Suspendable :
    (reg : Registry) (armed : Map (Unit {0})) (r : HubRecord)
    → get r.id reg.records ≡ none
    → Suspendable reg armed
    → Suspendable (create reg r) armed
unfolding create
create-Suspendable reg armed r unused w id on =
    let (q, there, can) = w id on in (q, get-put_fresh r.id id r reg.records unused there, can)

create_thread-Armed :
    (h : Hub) (id : String) (now : ℕ) (input : NewThread) (worker_created : Bool)
    → get id h.registry.records ≡ none
    → Armed h
    → Armed (create_thread h id now input worker_created).0
unfolding create_thread call new_record
create_thread-Armed h id now input true unused w =
    emit_info-Armed _ id (create-Suspendable h.registry h.armed (new_record id now input) unused w)
create_thread-Armed h id now input false unused w =
    delete-Suspendable (create h.registry (new_record id now input)) h.armed id
      (off h.registry h.armed id unused w)
      (create-Suspendable h.registry h.armed (new_record id now input) unused w)

handle-Armed : (h : Hub) (c : HubCall) → IsUnused h c → Armed h → Armed (handle h c)
unfolding handle archive_thread unarchive_thread clear_timers get
handle-Armed h (HubCall.reports id report) _ w = apply_report-Armed h id report w
handle-Armed h (HubCall.emits id event n) _ w = session_event-Armed h id event n w
handle-Armed h (HubCall.fires id) _ w = fire-Armed h id w
handle-Armed h (HubCall.runs input command outcome reply) _ w =
    run_session_command-Armed h input command outcome reply w
handle-Armed h (HubCall.archives input now) _ w = set_archived-Armed h input (some now) w
handle-Armed h (HubCall.unarchives input) _ w = set_archived-Armed h input none w
handle-Armed h (HubCall.creates id now input b) unused w =
    create_thread-Armed h id now input b unused w
handle-Armed h (HubCall.deletes input) _ w = delete_thread-Armed h input w
handle-Armed h (HubCall.renames input name) _ w = rename_thread-Armed h input name w
handle-Armed h (HubCall.begins_create _ _ _) never w = elim never [ ]
handle-Armed h (HubCall.resumes _) never w = elim never [ ]
handle-Armed h HubCall.closes _ w = λ id on. cc on

-- If every armed window belongs to a thread that is there, in a sandbox whose env is ready, then this is
-- so after any calls, as long as each runs to its end before the next begins and a new thread gets an
-- identifier that no thread has.
pub handle_all-Armed :
    (h : Hub) (cs : List HubCall) → AllUnused h cs → Armed h → Armed (handle_all h cs)
unfolding handle_all
handle_all-Armed h [] _ w = w
handle_all-Armed h (c ∷ cs) (unused, rest) w =
    handle_all-Armed (handle h c) cs rest (handle-Armed h c unused w)
