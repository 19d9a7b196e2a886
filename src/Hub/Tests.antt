-- ===== src/Hub/Tests.antt =====
-- A hub at concrete inputs.
use saku.Base.{true, false, none, some, List, [], ◌∷◌, ◌++◌, ◌≡◌, refl}
use saku.Base.Map.{get, put}
use saku.Base.Text.{trim}
use saku.Hub.Types.{
  HubRecord, ThreadMode, ThreadEnvState, SeamCall, SessionCommand, Answer, WorkerReport,
}
use saku.Hub.Registry.{
  make, create, NewThread, list, state_of, patch, set_tail_seq, to_info, info_from,
}
use saku.Hub.IdleStop.{Hub, notify, emit_info, is_idle}
use saku.Hub.Core.{
  resolve_thread, rename_thread, run_session_command, is_read_only, apply_report, report_registry,
  report_name, report_session, report_state, report_tail, report_window, thread_info_eq,
}
use saku.Hub.Overtaken.{overtaking, overtaking-forwards}
use saku.Hub.Calls.{HubCall, handle, handle_all}
use saku.Hub.Durable.{Durable, restart-handle_all}
use saku.Hub.Names.{IsPinned, handle_all-IsPinned, rename_thread-wins}
use saku.Hub.Armed.Reports.{Armed}
use saku.Hub.Armed.History.{AllUnused, handle_all-Armed}
use saku.Hub.Core.{create_thread, delete_thread}
use saku.Hub.Types.{HubErrorKind}
use saku.Hub.Threads.{create_thread-rolled_back, delete_thread-gone}
use saku.Hub.Windows.{Failed, run_session_command-gated}

abbrev sandbox_thread : NewThread
sandbox_thread = record {
  name = "first";
  cwd = none;
  mode = some ThreadMode.sandbox;
  auto_name = some true;
}

abbrev thread_record : HubRecord
thread_record = record {
  id = "t1";
  name = "first";
  cwd = none;
  mode = ThreadMode.sandbox;
  auto_name = true;
  created_at = 7;
  session_id = none;
  env = ThreadEnvState.stopped;
  remote_machine_id = none;
  env_handle = none;
  archived_at = none;
}

abbrev empty_hub : Hub
empty_hub = record {
  registry = record { records = []; stored = []; states = []; tail_seqs = [] };
  armed = [];
  events = [];
  calls = [];
}

empty_hub-Durable : Durable empty_hub.registry
unfolding get
empty_hub-Durable = record { own = λ id r e. cc e; synced = λ id. refl; distinct = tt }

abbrev one_thread : Hub
one_thread = record empty_hub { registry = create empty_hub.registry thread_record }

one_thread-record : get "t1" one_thread.registry.records ≡ some thread_record
unfolding create get put
one_thread-record = refl

one_thread-resolves : resolve_thread (list one_thread.registry) "first" ≡ Answer.ok thread_record
unfolding create resolve_thread list put
one_thread-resolves = refl

abbrev some_calls : List HubCall
some_calls =
    HubCall.creates "t1" 7 sandbox_thread true
    ∷ HubCall.archives "first" 9
    ∷ HubCall.fires "t1"
    ∷ []

restart-handle_all_example :
    get "t1" (make (handle_all empty_hub some_calls).registry.stored).records
    ≡ get "t1" (handle_all empty_hub some_calls).registry.records
restart-handle_all_example = restart-handle_all empty_hub some_calls "t1" empty_hub-Durable

abbrev titled : WorkerReport
titled = record { state = none; session_id = none; name = some "a title"; tail_seq = some 4 }

abbrev titled_record : HubRecord
titled_record = record thread_record { name = "a title"; auto_name = false }

titled-found :
    get "t1" (handle_all one_thread (HubCall.reports "t1" titled ∷ [])).registry.records
    ≡ some titled_record
unfolding handle_all handle apply_report report_registry report_name report_session report_state
    report_tail report_window patch create get put set_tail_seq to_info thread_info_eq notify
    info_from state_of
titled-found = refl

handle_all-IsPinned_example : IsPinned thread_record titled_record
handle_all-IsPinned_example =
    handle_all-IsPinned one_thread "t1" thread_record titled_record
      (HubCall.reports "t1" titled ∷ []) one_thread-record (tt, tt) titled-found

abbrev renamed_record : HubRecord
renamed_record = record thread_record { name = "mine"; auto_name = false }

mine-found :
    get "t1"
      (handle_all
        (rename_thread one_thread "first" " mine ").0
        (HubCall.reports "t1" titled ∷ [])).registry.records
    ≡ some renamed_record
unfolding handle_all handle apply_report report_registry report_name report_session report_state
    report_tail report_window patch create get put set_tail_seq to_info thread_info_eq notify
    info_from state_of rename_thread resolve_thread list emit_info trim
mine-found = refl

rename_thread-wins_example : renamed_record.name ≡ trim " mine "
unfolding trim
rename_thread-wins_example =
    rename_thread-wins one_thread "first" " mine " thread_record renamed_record
      (HubCall.reports "t1" titled ∷ []) one_thread-resolves refl (tt, tt) mine-found

run_session_command-gated_example :
    Failed one_thread thread_record
      (run_session_command one_thread "first" SessionCommand.prompt none (Answer.ok ("{}", 3)))
unfolding is_read_only
run_session_command-gated_example =
    run_session_command-gated one_thread "first" SessionCommand.prompt (Answer.ok ("{}", 3))
      thread_record thread_record refl one_thread-resolves one_thread-record refl refl

empty_hub-Armed : Armed empty_hub
unfolding get
empty_hub-Armed = λ id on. cc on

abbrev first_calls : List HubCall
first_calls = HubCall.creates "t1" 7 sandbox_thread true ∷ HubCall.fires "t1" ∷ HubCall.closes ∷ []

first_calls-AllUnused : AllUnused empty_hub first_calls
unfolding get
first_calls-AllUnused = (refl, (tt, (tt, tt)))

handle_all-Armed_example : Armed (handle_all empty_hub first_calls)
handle_all-Armed_example =
    handle_all-Armed empty_hub first_calls first_calls-AllUnused empty_hub-Armed

unused-record : get "t1" empty_hub.registry.records ≡ none
unfolding get
unused-record = refl

create_thread-rolled_back_example :
    (get "t1" (create_thread empty_hub "t1" 7 sandbox_thread false).0.registry.records
      ≡ get "t1" empty_hub.registry.records)
    × (get "t1" (create_thread empty_hub "t1" 7 sandbox_thread false).0.registry.stored
        ≡ get "t1" empty_hub.registry.stored)
    × ((create_thread empty_hub "t1" 7 sandbox_thread false).1 ≡ Answer.fail HubErrorKind.worker)
create_thread-rolled_back_example =
    create_thread-rolled_back empty_hub "t1" 7 sandbox_thread "t1" unused-record unused-record

delete_thread-gone_example :
    (get "t1" (delete_thread one_thread "first").0.registry.records ≡ none)
    × (get "t1" (delete_thread one_thread "first").0.registry.stored ≡ none)
    × (get "t1" (delete_thread one_thread "first").0.armed ≡ none)
delete_thread-gone_example =
    delete_thread-gone one_thread "first" thread_record thread_record one_thread-resolves
      one_thread-record

-- An idle sandbox whose env is ready.
abbrev ready_record : HubRecord
ready_record = record thread_record { env = ThreadEnvState.ready; env_handle = some "h1" }

abbrev ready_hub : Hub
ready_hub = record empty_hub { registry = create empty_hub.registry ready_record }

ready_hub-resolves : resolve_thread (list ready_hub.registry) "first" ≡ Answer.ok ready_record
unfolding create resolve_thread list put
ready_hub-resolves = refl

ready_hub-record : get "t1" ready_hub.registry.records ≡ some ready_record
unfolding create get put
ready_hub-record = refl

ready_hub-idle : is_idle (state_of ready_hub.registry "t1") ≡ true
unfolding state_of create get put
ready_hub-idle = refl

overtaking-forwards_example :
    ((handle_all ready_hub (overtaking "t1" "first" SessionCommand.prompt)).calls
      ≡ (((ready_hub.calls ++ SeamCall.provisioner_release "t1" none (some "h1") ∷ [])
            ++ SeamCall.worker_set_env_handle "t1" (some "h1") ∷ [])
          ++ SeamCall.worker_set_env_handle "t1" none ∷ [])
        ++ SeamCall.worker_command "t1" SessionCommand.prompt ∷ [])
    × (get "t1"
          (handle_all ready_hub (overtaking "t1" "first" SessionCommand.prompt)).registry.records
        ≡ some (record ready_record { env = ThreadEnvState.stopped }))
unfolding is_read_only
overtaking-forwards_example =
    overtaking-forwards ready_hub "first" SessionCommand.prompt ready_record ready_record
      ready_hub-resolves ready_hub-record refl refl ready_hub-idle refl

-- A prompt to a stopped env, with a provisioner and a worker that answer.
abbrev prompted : HubCall
prompted =
    HubCall.runs "first" SessionCommand.prompt
      (some record { remote_machine_id = some "m1"; handle = some "h1" }) (Answer.ok ("{}", 3))
