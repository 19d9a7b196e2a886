-- ===== src/Hub/Durable.antt =====
-- registry.ts with hub.ts: what the store holds is what the hub shows, and a restart reads it back.
use saku.Base.{
  String, Bool, true, false, Option, none, some, List, [], ◌∷◌, ◌≡◌, refl, sym, ap, ◌∙◌, inl, inr,
  Bool-cases, if◌then◌else◌, str_eq, eq_iff,
}
use saku.Base.Map.{Map, get, put, remove, has, get-put, get-remove, get-put_cases, get-remove-some}
use saku.Base.Text.{trim}
use saku.Hub.Types.{HubRecord}
use saku.Hub.Registry.{
  Registry, load_records, make, patch, new_record, create, delete, set_env, set_env_handle,
  set_remote_machine_id, set_state, set_tail_seq,
}
use saku.Hub.IdleStop.{Hub}
use saku.Hub.Core.{report_name}
use saku.Hub.Calls.{HubCall, handle, handle_all, IsClosed, Allows, renamed}
use saku.Hub.Calls.Handled.{handle-closed}
use saku.Base.Unique.{IsMap, put-IsMap, remove-IsMap, put-put_same, get-put_key, get-tail, get-head}

pub record Durable (reg : Registry) : Type 0 where
  pub own : (id : String) (r : HubRecord) → get id reg.records ≡ some r → r.id ≡ id
  pub synced : (id : String) → get id reg.stored ≡ get id reg.records
  pub distinct : IsMap reg.stored

-- A write of one record, under its own identifier.
patch-Durable :
    (reg : Registry) (id : String) (fn : HubRecord → HubRecord)
    → ((r : HubRecord) → (fn r).id ≡ r.id)
    → Durable reg
    → Durable (patch reg id fn)
unfolding patch
patch-Durable reg id fn keeps d = at (get id reg.records) refl
  where
    at :
        (found : Option HubRecord)
        → get id reg.records ≡ found
        → Durable (elim found as (λ _. Registry) [
          | none ↦ reg
          | some r ↦ record reg {
            records = put id (fn r) reg.records;
            stored = put (fn r).id (fn r) reg.stored;
          }
        ])
    at none _ = d
    at (some r) found = record {
      own = λ j w at_j. elim (get-put_cases id j (fn r) reg.records at_j) [
        | inl (same, made) ↦
            ap (λ (x : HubRecord). x.id) (sym made) ∙ keeps r ∙ d.own id r found ∙ same
        | inr old ↦ d.own j w old
      ];
      synced = λ j.
          put-put_same id (fn r).id j (fn r) reg.stored reg.records (keeps r ∙ d.own id r found)
            (d.synced j);
      distinct = put-IsMap _ _ reg.stored d.distinct;
    }

create-Durable : (reg : Registry) (r : HubRecord) → Durable reg → Durable (create reg r)
unfolding create
create-Durable reg r d = record {
  own = λ j w at_j. elim (get-put_cases r.id j r reg.records at_j) [
    | inl (same, made) ↦ ap (λ (x : HubRecord). x.id) (sym made) ∙ same
    | inr old ↦ d.own j w old
  ];
  synced = λ j. rw (get-put r.id j r reg.stored, get-put r.id j r reg.records, d.synced j) refl;
  distinct = put-IsMap _ _ reg.stored d.distinct;
}

delete-Durable : (reg : Registry) (id : String) → Durable reg → Durable (delete reg id)
unfolding delete
delete-Durable reg id d = at (has id reg.records)
  where
    at :
        (b : Bool)
        → Durable (
            if b
            then record {
              records = remove id reg.records;
              states = remove id reg.states;
              tail_seqs = remove id reg.tail_seqs;
              stored = remove id reg.stored;
            }
            else reg)
    at true = record {
      own = λ j w at_j. d.own j w (get-remove-some id j reg.records at_j);
      synced = λ j. rw (get-remove id j reg.stored, get-remove id j reg.records, d.synced j) refl;
      distinct = remove-IsMap id reg.stored d.distinct;
    }
    at false = d

report_name-Durable :
    (reg : Registry) (id : String) (n : Option String)
    → Durable reg
    → Durable (report_name reg id n)
unfolding report_name
report_name-Durable reg id none d = d
report_name-Durable reg id (some n) d = at (get id reg.records)
  where
    named : (b : Bool) → Durable (if b then patch reg id (renamed n) else reg)
    named true = patch-Durable reg id (renamed n) (λ _. refl) d
    named false = d

    at :
        (found : Option HubRecord)
        → Durable (elim found as (λ _. Registry) [
          | none ↦ reg
          | some r ↦ if r.auto_name then patch reg id (renamed n) else reg
        ])
    at none = d
    at (some r) = named r.auto_name

pub Durable-IsClosed : IsClosed Durable
unfolding set_env set_env_handle set_remote_machine_id set_state set_tail_seq
Durable-IsClosed = record {
  env = λ reg id e. patch-Durable reg id _ (λ _. refl);
  handle = λ reg id e. patch-Durable reg id _ (λ _. refl);
  machine = λ reg id m. patch-Durable reg id _ (λ _. refl);
  name = report_name-Durable;
  session = λ reg id s. patch-Durable reg id _ (λ _. refl);
  archived = λ reg id a. patch-Durable reg id _ (λ _. refl);
  state = λ reg id s d. record { own = d.own; synced = d.synced; distinct = d.distinct };
  tail = λ reg id n d. record { own = d.own; synced = d.synced; distinct = d.distinct };
  gone = delete-Durable;
}

-- Every call of the hub keeps the store and the cache the same.
pub handle-Durable : (h : Hub) (k : HubCall) → Durable h.registry → Durable (handle h k).registry
handle-Durable h k d = handle-closed Durable Durable-IsClosed h k (allowed k) d
  where
    allowed : (k : HubCall) → Allows Durable h k
    allowed (HubCall.creates id now input _) = create-Durable h.registry (new_record id now input) d
    allowed (HubCall.renames input name) =
        λ id. patch-Durable h.registry id (renamed (trim name)) (λ _. refl) d
    allowed (HubCall.reports _ _) = tt
    allowed (HubCall.emits _ _ _) = tt
    allowed (HubCall.fires _) = tt
    allowed (HubCall.runs _ _ _ _) = tt
    allowed (HubCall.archives _ _) = tt
    allowed (HubCall.unarchives _) = tt
    allowed (HubCall.deletes _) = tt
    allowed HubCall.closes = tt
    allowed (HubCall.begins_create id now input) =
        create-Durable h.registry (new_record id now input) d
    allowed (HubCall.resumes _) = tt

handle_all-Durable :
    (h : Hub) (ks : List HubCall) → Durable h.registry → Durable (handle_all h ks).registry
unfolding handle_all
handle_all-Durable h [] d = d
handle_all-Durable h (k ∷ ks) d = handle_all-Durable (handle h k) ks (handle-Durable h k d)

abbrev over : Option HubRecord → Option HubRecord → Option HubRecord
over none b = b
over (some a) b = some a

over-none : (a : Option HubRecord) → over a none ≡ a
over-none none = refl
over-none (some a) = refl

-- Reading the store: each record, under its own identifier.
get-load_records :
    (acc m : Map HubRecord) (j : String)
    → IsMap m
    → ((id : String) (r : HubRecord) → get id m ≡ some r → r.id ≡ id)
    → get j (load_records acc m) ≡ over (get j m) (get j acc)
unfolding load_records get
get-load_records acc [] j _ _ = refl
get-load_records acc ((k, r) ∷ m) j (absent, rest) own =
    get-load_records (put r.id r acc) m j rest
      (λ i w found. own i w (get-tail k i r w m absent found))
    ∙ elim (Bool-cases (str_eq k j)) [
      | inl same ↦
          rw
            (
              same,
              sym (ap (λ x. get x m) ((eq_iff k j).0 same)) ∙ absent,
              get-put_key k r.id j r acc (own k r (get-head k r m)),
              same,
            )
            refl
      | inr other ↦ rw (other, get-put_key k r.id j r acc (own k r (get-head k r m)), other) refl
    ]

-- After any calls, and parts of calls that wait while others run, on a hub whose store and cache agree, a restart that reads the store back shows the
-- same record of every thread, and none where there was none.
pub restart-handle_all :
    (h : Hub) (ks : List HubCall) (id : String)
    → Durable h.registry
    → get id (make (handle_all h ks).registry.stored).records
      ≡ get id (handle_all h ks).registry.records
unfolding make get
restart-handle_all h ks id d =
    get-load_records [] d'.stored id all.distinct
      (λ i r found. all.own i r (sym (all.synced i) ∙ found))
    ∙ over-none (get id d'.stored)
    ∙ all.synced id
  where
    d' : Registry
    d' = (handle_all h ks).registry

    all : Durable (handle_all h ks).registry
    all = handle_all-Durable h ks d
