-- ===== src/Hub/Names.antt =====
-- registry.ts with hub.ts: what the calls of the hub keep of one thread's record.
use saku.Base.{
  String, false, Option, none, some, List, [], ◌∷◌, ◌≡◌, ◌≢◌, refl, sym, ap, ◌∙◌, subst, All,
}
use saku.Base.Map.{get, put, get-put_self}
use saku.Base.Text.{trim, is_empty_text}
use saku.Hub.Types.{HubRecord, ThreadInfo, Answer}
use saku.Hub.Registry.{Registry, patch, list}
use saku.Hub.IdleStop.{Hub}
use saku.Hub.Core.{resolve_thread, rename_thread, on_registry}
use saku.Hub.Calls.{HubCall, handle_all, renamed, registry-emit_info, with_thread-ok}
use saku.Hub.Kept.{Holds, IsKept, Spares, handle_all-Holds}

-- Calls that create no thread of a given identifier, and that rename none.
abbrev pub IsFresh : String → HubCall → Type 0
IsFresh id (HubCall.creates j _ _ _) = j ≢ id
IsFresh id (HubCall.begins_create j _ _) = j ≢ id
IsFresh id _ = Unit

abbrev pub IsNoRename : String → HubCall → Type 0
IsNoRename id (HubCall.creates j _ _ _) = j ≢ id
IsNoRename id (HubCall.renames _ _) = ⊥
IsNoRename id (HubCall.begins_create j _ _) = j ≢ id
IsNoRename id _ = Unit

abbrev pub IsPinned : HubRecord → HubRecord → Type 0
IsPinned r w = (w.id ≡ r.id) × (w.mode ≡ r.mode) × (w.cwd ≡ r.cwd) × (w.created_at ≡ r.created_at)

IsPinned-IsKept : (r : HubRecord) → IsKept (λ w. IsPinned r w)
IsPinned-IsKept r = record {
  env = λ w e p. p;
  handle = λ w e p. p;
  machine = λ w m p. p;
  session = λ w s p. p;
  archived = λ w a p. p;
  titled = λ w n _ p. p;
}

All-Spares :
    (id : String) (r : HubRecord) (cs : List HubCall)
    → All (IsFresh id) cs
    → All (Spares id (λ w. IsPinned r w)) cs
All-Spares id r [] _ = tt
All-Spares id r (c ∷ cs) (fresh, rest) = (one c fresh, All-Spares id r cs rest)
  where
    one : (c : HubCall) → IsFresh id c → Spares id (λ w. IsPinned r w) c
    one (HubCall.creates j now input _) other = λ same. elim (other same) [ ]
    one (HubCall.renames _ name) _ = λ w p. p
    one (HubCall.reports _ _) _ = tt
    one (HubCall.emits _ _ _) _ = tt
    one (HubCall.fires _) _ = tt
    one (HubCall.runs _ _ _ _) _ = tt
    one (HubCall.archives _ _) _ = tt
    one (HubCall.unarchives _) _ = tt
    one (HubCall.deletes _) _ = tt
    one HubCall.closes _ = tt
    one (HubCall.begins_create j now input) other = λ same. elim (other same) [ ]
    one (HubCall.resumes _) _ = tt

-- The identifier, the mode, the directory and the creation time of a thread never change: after any
-- calls, and parts of calls that wait while others run, that create no second thread of its identifier, a
-- thread that is still there has them as before.
pub handle_all-IsPinned :
    (h : Hub) (id : String) (r w : HubRecord) (cs : List HubCall)
    → get id h.registry.records ≡ some r
    → All (IsFresh id) cs
    → get id (handle_all h cs).registry.records ≡ some w
    → IsPinned r w
handle_all-IsPinned h id r w cs found fresh after =
    handle_all-Holds id (λ v. IsPinned r v) (IsPinned-IsKept r) h cs (All-Spares id r cs fresh)
      (λ v there. pinned (same v there)) w after
  where
    same : (v : HubRecord) → get id h.registry.records ≡ some v → r ≡ v
    same v there = cc (sym found ∙ there)

    pinned : {v : HubRecord} → r ≡ v → IsPinned r v
    pinned e = subst (λ v. IsPinned r v) e (refl, refl, refl, refl)

-- A record that the user named: no report may name it again.
abbrev pub IsNamed : String → HubRecord → Type 0
IsNamed n r = (r.auto_name ≡ false) × (r.name ≡ n)

IsNamed-IsKept : (n : String) → IsKept (λ w. IsNamed n w)
IsNamed-IsKept n = record {
  env = λ w e p. p;
  handle = λ w e p. p;
  machine = λ w m p. p;
  session = λ w s p. p;
  archived = λ w a p. p;
  titled = λ w m auto p. cc (sym p.0 ∙ auto);
}

no_rename-Spares :
    (id n : String) (cs : List HubCall)
    → All (IsNoRename id) cs
    → All (Spares id (λ w. IsNamed n w)) cs
no_rename-Spares id n [] _ = tt
no_rename-Spares id n (c ∷ cs) (clear, rest) = (one c clear, no_rename-Spares id n cs rest)
  where
    one : (c : HubCall) → IsNoRename id c → Spares id (λ w. IsNamed n w) c
    one (HubCall.creates j now input _) other = λ same. elim (other same) [ ]
    one (HubCall.renames _ name) other = elim other [ ]
    one (HubCall.reports _ _) _ = tt
    one (HubCall.emits _ _ _) _ = tt
    one (HubCall.fires _) _ = tt
    one (HubCall.runs _ _ _ _) _ = tt
    one (HubCall.archives _ _) _ = tt
    one (HubCall.unarchives _) _ = tt
    one (HubCall.deletes _) _ = tt
    one HubCall.closes _ = tt
    one (HubCall.begins_create j now input) other = λ same. elim (other same) [ ]
    one (HubCall.resumes _) _ = tt

patch-IsNamed :
    (reg : Registry) (id n : String) → Holds id (λ w. IsNamed n w) (patch reg id (renamed n))
unfolding patch
patch-IsNamed reg id n = at (get id reg.records) refl
  where
    at :
        (found : Option HubRecord)
        → get id reg.records ≡ found
        → Holds id
            (λ w. IsNamed n w)
            (elim found as (λ _. Registry) [
              | none ↦ reg
              | some r ↦ record reg {
                records = put id (renamed n r) reg.records;
                stored = put (renamed n r).id (renamed n r) reg.stored;
              }
            ])
    at none missing = λ w there. cc (sym missing ∙ there)
    at (some r) found = λ w there. named (same there)
      where
        same :
            {w : HubRecord} → get id (put id (renamed n r) reg.records) ≡ some w → renamed n r ≡ w
        same there = cc (sym (get-put_self id (renamed n r) reg.records) ∙ there)

        named : {w : HubRecord} → renamed n r ≡ w → IsNamed n w
        named e = subst (λ w. IsNamed n w) e (refl, refl)

rename_thread-registry :
    (h : Hub) (input name : String) (r : HubRecord)
    → resolve_thread (list h.registry) input ≡ Answer.ok r
    → is_empty_text (trim name) ≡ false
    → (rename_thread h input name).0.registry ≡ patch h.registry r.id (renamed (trim name))
unfolding rename_thread
rename_thread-registry h input name r found full =
    ap (λ (x : Hub × Answer ThreadInfo). x.0.registry) (with_thread-ok h input _ r found)
    ∙ rw (full)
        (registry-emit_info (on_registry h (patch h.registry r.id (renamed (trim name)))) r.id)

-- A user's rename wins over the titles that a worker reports: if it finds a thread and the name is not
-- blank, then whatever calls and parts of waiting calls follow it, but for another rename or a second thread of that identifier,
-- the thread, if still there, has the trimmed name.
pub rename_thread-wins :
    (h : Hub) (input name : String) (r w : HubRecord) (cs : List HubCall)
    → resolve_thread (list h.registry) input ≡ Answer.ok r
    → is_empty_text (trim name) ≡ false
    → All (IsNoRename r.id) cs
    → get r.id (handle_all (rename_thread h input name).0 cs).registry.records ≡ some w
    → w.name ≡ trim name
rename_thread-wins h input name r w cs found full clear after =
    (handle_all-Holds r.id (λ v. IsNamed (trim name) v) (IsNamed-IsKept (trim name))
      (rename_thread h input name).0 cs (no_rename-Spares r.id (trim name) cs clear)
      (subst (Holds r.id (λ v. IsNamed (trim name) v))
        (sym (rename_thread-registry h input name r found full))
        (patch-IsNamed h.registry r.id (trim name)))
      w after).1
