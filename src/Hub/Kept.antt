-- ===== src/Hub/Kept.antt =====
-- registry.ts with hub.ts: a property of one thread's record that the writes keep is kept by the calls.
use saku.Base.{
  ℕ, String, Bool, true, false, Option, none, some, List, [], ◌∷◌, ◌≡◌, refl, sym, ◌∙◌, subst, inl,
  inr, if◌then◌else◌, All,
}
use saku.Base.Map.{get, put, remove, has, get-put_cases, get-remove-some}
use saku.Base.Text.{trim}
use saku.Hub.Types.{HubRecord, ThreadEnvState}
use saku.Hub.Registry.{
  Registry, patch, new_record, create, delete, set_env, set_env_handle, set_remote_machine_id,
  set_state, set_tail_seq,
}
use saku.Hub.IdleStop.{Hub}
use saku.Hub.Core.{report_name}
use saku.Hub.Calls.{HubCall, handle, handle_all, IsClosed, Allows, renamed}
use saku.Hub.Calls.Handled.{handle-closed}

-- The record of a thread, if there is one, has a property.
abbrev pub Holds : String → (HubRecord → Type 0) → Registry → Type 0
Holds id Q reg = (r : HubRecord) → get id reg.records ≡ some r → Q r

-- A property of records that every write but a rename keeps.
pub record IsKept (Q : HubRecord → Type 0) : Type 0 where
  pub env : (r : HubRecord) (e : ThreadEnvState) → Q r → Q (record r { env = e })
  pub handle : (r : HubRecord) (e : Option String) → Q r → Q (record r { env_handle = e })
  pub machine : (r : HubRecord) (m : Option String) → Q r → Q (record r { remote_machine_id = m })
  pub session : (r : HubRecord) (s : Option String) → Q r → Q (record r { session_id = s })
  pub archived : (r : HubRecord) (a : Option ℕ) → Q r → Q (record r { archived_at = a })
  pub titled : (r : HubRecord) (n : String) → r.auto_name ≡ true → Q r → Q (renamed n r)

module _ (id : String) (Q : HubRecord → Type 0) where
  Holds-patch :
      (reg : Registry) (j : String) (fn : HubRecord → HubRecord)
      → ((r : HubRecord) → get j reg.records ≡ some r → Q r → Q (fn r))
      → Holds id Q reg
      → Holds id Q (patch reg j fn)
  unfolding patch
  Holds-patch reg j fn keeps q = at (get j reg.records) refl
    where
      at :
          (found : Option HubRecord)
          → get j reg.records ≡ found
          → Holds id Q (elim found as (λ _. Registry) [
            | none ↦ reg
            | some r ↦ record reg {
              records = put j (fn r) reg.records;
              stored = put (fn r).id (fn r) reg.stored;
            }
          ])
      at none _ = q
      at (some r) found = λ w at_id. elim (get-put_cases j id (fn r) reg.records at_id) [
        | inl (same, made) ↦
            subst Q made (keeps r found (q r (subst (λ x. get x reg.records ≡ some r) same found)))
        | inr old ↦ q w old
      ]

  Holds-create :
      (reg : Registry) (r : HubRecord)
      → (r.id ≡ id → Q r)
      → Holds id Q reg
      → Holds id Q (create reg r)
  unfolding create
  Holds-create reg r fresh q w at_id = elim (get-put_cases r.id id r reg.records at_id) [
    | inl (same, made) ↦ subst Q made (fresh same)
    | inr old ↦ q w old
  ]

  Holds-delete : (reg : Registry) (j : String) → Holds id Q reg → Holds id Q (delete reg j)
  unfolding delete
  Holds-delete reg j q = at (has j reg.records)
    where
      at :
          (b : Bool)
          → Holds id Q (
              if b
              then record {
                records = remove j reg.records;
                states = remove j reg.states;
                tail_seqs = remove j reg.tail_seqs;
                stored = remove j reg.stored;
              }
              else reg)
      at true = λ w at_id. q w (get-remove-some j id reg.records at_id)
      at false = q

  Holds-report_name :
      IsKept Q
      → (reg : Registry) (j : String) (n : Option String) → Holds id Q reg
      → Holds id Q (report_name reg j n)
  unfolding report_name
  Holds-report_name k reg j none q = q
  Holds-report_name k reg j (some n) q = at (get j reg.records) refl
    where
      named :
          (r : HubRecord)
          → get j reg.records ≡ some r
          → (b : Bool) → r.auto_name ≡ b
          → Holds id Q (if b then patch reg j (renamed n) else reg)
      named r found true auto =
          Holds-patch reg j (renamed n)
            (λ w there p.
              k.titled w n
                (subst (λ x. elim x as (λ _. Type 0) [ none ↦ Unit | some v ↦ v.auto_name ≡ true ])
                  (sym found ∙ there) auto)
                p)
            q
      named r found false _ = q

      at :
          (found : Option HubRecord)
          → get j reg.records ≡ found
          → Holds id Q (elim found as (λ _. Registry) [
            | none ↦ reg
            | some r ↦ if r.auto_name then patch reg j (renamed n) else reg
          ])
      at none _ = q
      at (some r) found = named r found r.auto_name refl

  pub Holds-IsClosed : IsKept Q → IsClosed (Holds id Q)
  unfolding set_env set_env_handle set_remote_machine_id set_state set_tail_seq
  Holds-IsClosed k = record {
    env = λ reg j e. Holds-patch reg j _ (λ r _. k.env r e);
    handle = λ reg j e. Holds-patch reg j _ (λ r _. k.handle r e);
    machine = λ reg j m. Holds-patch reg j _ (λ r _. k.machine r m);
    name = Holds-report_name k;
    session = λ reg j s. Holds-patch reg j _ (λ r _. k.session r s);
    archived = λ reg j a. Holds-patch reg j _ (λ r _. k.archived r a);
    state = λ reg j s q. q;
    tail = λ reg j n q. q;
    gone = Holds-delete;
  }

  -- What a call may do to the thread besides: nothing, if it neither creates nor renames it.
  abbrev pub Spares : HubCall → Type 0
  Spares (HubCall.creates j now input _) = j ≡ id → Q (new_record j now input)
  Spares (HubCall.begins_create j now input) = j ≡ id → Q (new_record j now input)
  Spares (HubCall.renames _ name) = (r : HubRecord) → Q r → Q (renamed (trim name) r)
  Spares _ = Unit

  handle-Holds :
      IsKept Q
      → (h : Hub) (c : HubCall) → Spares c
      → Holds id Q h.registry
      → Holds id Q (handle h c).registry
  unfolding new_record
  handle-Holds k h c spares q =
      handle-closed (Holds id Q) (Holds-IsClosed k) h c (allowed c spares) q
    where
      allowed : (c : HubCall) → Spares c → Allows (Holds id Q) h c
      allowed (HubCall.creates j now input _) fresh =
          Holds-create h.registry (new_record j now input) fresh q
      allowed (HubCall.renames _ name) keeps =
          λ j. Holds-patch h.registry j (renamed (trim name)) (λ r _. keeps r) q
      allowed (HubCall.reports _ _) _ = tt
      allowed (HubCall.emits _ _ _) _ = tt
      allowed (HubCall.fires _) _ = tt
      allowed (HubCall.runs _ _ _ _) _ = tt
      allowed (HubCall.archives _ _) _ = tt
      allowed (HubCall.unarchives _) _ = tt
      allowed (HubCall.deletes _) _ = tt
      allowed HubCall.closes _ = tt
      allowed (HubCall.begins_create j now input) fresh =
          Holds-create h.registry (new_record j now input) fresh q
      allowed (HubCall.resumes _) _ = tt

  pub handle_all-Holds :
      IsKept Q
      → (h : Hub) (cs : List HubCall) → All Spares cs
      → Holds id Q h.registry
      → Holds id Q (handle_all h cs).registry
  unfolding handle_all
  handle_all-Holds k h [] _ q = q
  handle_all-Holds k h (c ∷ cs) (spares, rest) q =
      handle_all-Holds k (handle h c) cs rest (handle-Holds k h c spares q)
