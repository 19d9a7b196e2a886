-- ===== src/Hub/Threads.antt =====
-- hub.ts: threads that come and go.
use saku.Base.{
  ℕ, String, false, Option, none, some, ◌≡◌, refl, sym, ap, ◌∙◌, inl, inr, Bool-cases, str_eq,
  eq_iff,
}
use saku.Base.Map.{Map, get, put, remove, get-put, get-remove, has-put_self}
use saku.Base.Unique.{get-remove_self}
use saku.Hub.Types.{HubRecord, Answer, HubErrorKind, HubEvent, ThreadInfo}
use saku.Hub.Registry.{Registry, NewThread, new_record, create, delete, list, to_info, info_from}
use saku.Hub.IdleStop.{Hub, call, notify, disarm}
use saku.Hub.Core.{resolve_thread, on_registry, create_thread, delete_thread, tear_down}
use saku.Hub.Calls.{with_thread-ok}

module _ {ℓ} {V : Type ℓ} where
  get-remove-put :
      (k j : String) (v : V) (m : Map V) → get k m ≡ none → get j (remove k (put k v m)) ≡ get j m
  get-remove-put k j v m fresh = elim (Bool-cases (str_eq k j)) [
    | inl same ↦
        rw (get-remove k j (put k v m), same) (sym fresh ∙ ap (λ x. get x m) ((eq_iff k j).0 same))
    | inr other ↦ rw (get-remove k j (put k v m), other, get-put k j v m, other) refl
  ]

-- A thread whose worker cannot be made leaves no trace: if its identifier is new in the cache and in the
-- store, then afterwards every record is as before in both, and the caller gets a worker error.
pub create_thread-rolled_back :
    (h : Hub) (id : String) (now : ℕ) (input : NewThread) (j : String)
    → get id h.registry.records ≡ none
    → get id h.registry.stored ≡ none
    → (get j (create_thread h id now input false).0.registry.records ≡ get j h.registry.records)
      × (get j (create_thread h id now input false).0.registry.stored ≡ get j h.registry.stored)
      × ((create_thread h id now input false).1 ≡ Answer.fail HubErrorKind.worker)
unfolding create_thread create delete call new_record
create_thread-rolled_back h id now input j fresh unstored =
    rw (has-put_self id (new_record id now input) h.registry.records) (
      get-remove-put id j (new_record id now input) h.registry.records fresh,
      get-remove-put id j (new_record id now input) h.registry.stored unstored,
      refl,
    )

delete-gone :
    (reg : Registry) (id : String) (w : HubRecord)
    → get id reg.records ≡ some w
    → (get id (delete reg id).records ≡ none) × (get id (delete reg id).stored ≡ none)
unfolding delete
delete-gone reg id w there =
    rw (there) (get-remove_self id reg.records, get-remove_self id reg.stored)

-- A thread that is deleted is gone from the cache and from the store, and so is its window.
pub delete_thread-gone :
    (h : Hub) (input : String) (r w : HubRecord)
    → resolve_thread (list h.registry) input ≡ Answer.ok r
    → get r.id h.registry.records ≡ some w
    → (get r.id (delete_thread h input).0.registry.records ≡ none)
      × (get r.id (delete_thread h input).0.registry.stored ≡ none)
      × (get r.id (delete_thread h input).0.armed ≡ none)
unfolding delete_thread to_info tear_down call disarm notify
delete_thread-gone h input r w found there =
    rw (with_thread-ok h input _ r found) (at (get r.id h.registry.records) there)
  where
    Gone : Hub × Answer ThreadInfo → Type 0
    Gone x =
        (get r.id x.0.registry.records ≡ none)
        × (get r.id x.0.registry.stored ≡ none)
        × (get r.id x.0.armed ≡ none)

    at :
        (record_found : Option HubRecord)
        → record_found ≡ some w
        → Gone
            (elim (elim record_found as (λ _. Option ThreadInfo) [
              | none ↦ none
              | some v ↦ some (info_from h.registry r.id v)
            ])
              as (λ _. Hub × Answer ThreadInfo) [
                | none ↦ (h, Answer.fail HubErrorKind.registry)
                | some info ↦
                    let h' = tear_down h r.id record_found in
                    (
                      notify
                          (on_registry h' (delete h'.registry r.id))
                          (HubEvent.thread_changed info),
                      Answer.ok info,
                    )
              ])
    at none e = cc e
    at (some v) _ =
        let (dropped, unstored) = delete-gone h.registry r.id w there in
        (dropped, unstored, get-remove_self r.id h.armed)
