-- ===== src/PiSessions/V3/Resolve.antt =====
-- pi-sessions/v3.ts: the loops that follow parents end. Each round visits a key that it had not
-- visited, so their fuel is enough.
use saku.Base.{
  ℕ, zero, suc, ◌≤◌, ◌<◌, String, Bool, true, false, Option, none, some, List, [], ◌∷◌, ◌≡◌, refl,
  sym, subst, ◌⊎◌, inl, inr, All, All-map, Bool-cases, Option-cases, mem?, str_eq, eq_iff, arith,
  length, if◌then◌else◌,
}
use saku.Base.Map.{Map, get}
use saku.PiSessions.V3.{V3Entry, V3ParseState, resolve_from, resolve_parent}
use saku.PiSessions.V3.Tails.{path_from, path_from_leaf}

module _ {ℓ} {V : Type ℓ} where
  -- The keys of a map that were not visited.
  abbrev unvisited : Map V → List String → ℕ
  unvisited [] visited = 0
  unvisited ((k, v) ∷ m) visited =
      let rest = unvisited m visited in if mem? k visited then rest else suc rest

  unvisited-le : (m : Map V) (visited : List String) → unvisited m visited ≤ length m
  unvisited-le [] visited = omega arith
  unvisited-le ((k, v) ∷ m) visited = ground (arith, unvisited-le m visited)

  unvisited_mono :
      (m : Map V) (visited : List String) (id : String)
      → unvisited m (id ∷ visited) ≤ unvisited m visited
  unvisited_mono [] visited id = omega arith
  unvisited_mono ((k, v) ∷ m) visited id = ground (arith, unvisited_mono m visited id)

  -- A key that is visited for the first time.
  unvisited-visit :
      (m : Map V) (visited : List String) (id : String) {v : V}
      → get id m ≡ some v
      → mem? id visited ≡ false
      → unvisited m (id ∷ visited) < unvisited m visited
  unfolding get
  unvisited-visit [] visited id found new = cc
  unvisited-visit ((k, w) ∷ m) visited id {v} found new =
      at (str_eq k id) refl found (λ there. unvisited-visit m visited id there new)
    where
      at :
          (b : Bool)
          → str_eq k id ≡ b
          → (if b then some w else get id m) ≡ some v
          → (get id m ≡ some v → unvisited m (id ∷ visited) < unvisited m visited)
          → unvisited ((k, w) ∷ m) (id ∷ visited) < unvisited ((k, w) ∷ m) visited
      at true same _ _ =
          let itself : k ≡ id = (eq_iff k id).0 same in
          let known : str_eq id k ≡ true = (eq_iff id k).1 (sym itself) in
          let unseen : mem? k visited ≡ false =
            subst (λ t. mem? t visited ≡ false) (sym itself) new in
          ground (arith, known, unseen, unvisited_mono m visited id)
      at false other there fewer = ground (arith, fewer there, eq_iff k id, eq_iff id k, other)

-- The facts from one identifier up, each the parent of the one before it.
pub data Behind (facts : Map String) : String → String → Type 0 where
  here : {id : String} → Behind facts id id
  up :
      {id parent top : String}
      → get id facts ≡ some parent
      → Behind facts parent top
      → Behind facts id top

Behind-snoc :
    {facts : Map String} {id top parent : String}
    → Behind facts id top
    → get top facts ≡ some parent
    → Behind facts id parent
Behind-snoc here found = up found here
Behind-snoc (up found rest) last = up found (Behind-snoc rest last)

module _ (facts : Map String) where
  -- A fact from which the walk came to the one at hand.
  abbrev LeadsTo : String → String → Type 0
  LeadsTo current id =
      (parent : String) × (get id facts ≡ some parent) × Behind facts parent current

  -- Where the walk ends: at what is no fact, or on a cycle of facts.
  abbrev pub EndsAt : String → Type 0
  EndsAt id = (get id facts ≡ none) ⊎ LeadsTo id id

  visited_leads :
      (current : String) (visited : List String)
      → All (LeadsTo current) visited
      → mem? current visited ≡ true
      → LeadsTo current current
  visited_leads current [] h k = cc
  visited_leads current (id ∷ visited) (lead, h) k = elim (Bool-cases (str_eq id current)) [
    | inl same ↦ subst (LeadsTo current) ((eq_iff id current).0 same) lead
    | inr other ↦ visited_leads current visited h (rw other at k)
  ]

  resolve_from-total :
      (fuel : ℕ) (visited : List String) (current : String)
      → unvisited facts visited < fuel
      → All (LeadsTo current) visited
      → (id : String) × (resolve_from facts fuel visited current ≡ some id)
        × Behind facts current id
        × EndsAt id
  unfolding resolve_from
  resolve_from-total zero visited current enough leads = elim enough [ ]
  resolve_from-total (suc fuel) visited current enough leads =
      elim (Bool-cases (mem? current visited)) [
        | inl seen ↦ (
          current,
          rw (seen, resolve_from) refl,
          here,
          inr (visited_leads current visited leads seen),
        )
        | inr new ↦ elim (Option-cases (get current facts)) [
          | inl absent ↦ (current, rw (new, absent, resolve_from) refl, here, inl absent)
          | inr (parent, found) ↦
              let (id, ended, behind, top) =
                resolve_from-total fuel (current ∷ visited) parent
                  (omega (arith, unvisited-visit facts visited current found new))
                  (
                    (parent, found, here),
                    All-map (λ x (p, at, b). (p, at, Behind-snoc b found)) visited leads,
                  ) in
              (id, rw (new, found, resolve_from) ended, up found behind, top)
        ]
      ]

  -- The walk past the facts ends for any map of facts, with cycles or without: it gives what it reaches
  -- along the parents, which is no fact unless the facts form a cycle.
  pub resolve_parent-total :
      (id : String)
      → (top : String) × (resolve_parent facts id ≡ some top) × Behind facts id top × EndsAt top
  unfolding resolve_parent
  resolve_parent-total id =
      resolve_from-total (suc (length facts)) [] id (omega (arith, unvisited-le facts [])) tt

module _ (by_id : Map V3Entry) where
  path_from-total :
      (fuel : ℕ) (visited : List String) (current : Option String)
      → suc (unvisited by_id visited) < fuel
      → (path : List V3Entry) × (path_from by_id fuel visited current ≡ some path)
  unfolding path_from
  path_from-total zero visited current enough = elim enough [ ]
  path_from-total (suc fuel) visited none enough = ([], refl)
  path_from-total (suc fuel) visited (some id) enough = elim (Bool-cases (mem? id visited)) [
    | inl seen ↦ ([], rw (seen, path_from) refl)
    | inr new ↦ elim (Option-cases (get id by_id)) [
      | inl absent ↦ ([], rw (new, absent, path_from) refl)
      | inr (e, found) ↦
          let (path, walked) =
            path_from-total fuel (id ∷ visited) e.parent_id
              (omega (arith, unvisited-visit by_id visited id found new)) in
          (e ∷ path, rw (new, found, walked, path_from) refl)
    ]
  ]

-- The path from the leaf is read for any entries.
pub path_from_leaf-total :
    (st : V3ParseState) → (path : List V3Entry) × (path_from_leaf st ≡ some path)
unfolding path_from_leaf
path_from_leaf-total st =
    path_from-total st.entries_by_id (suc (suc (length st.entries_by_id))) [] st.last_entry_id
      (omega (arith, unvisited-le st.entries_by_id []))
