-- ===== src/Live/Tests.antt =====
-- The console's view at concrete inputs.
use saku.Base.{◌||◌, some, List, [], ◌∷◌, ◌≡◌, refl, mem?, ◌≤◌, All}
use saku.Live.{
  Entry, TrailData, TrailState, Live, empty_live, empty_region, SessionEvent, fold_all,
  fold_trail_loaded,
}
use saku.Live.Loaded.{ids, shown, IsDistinct, IsOrdered, fold_trail_loaded-IsOrdered}
use saku.Live.Streaming.{appended, fold_trail_loaded-keeps}
use saku.Live.Reload.{fold_trail_loaded-replaces}
use saku.Live.Tail.{tail, Covered, Attains, tail-fold_trail_loaded}

abbrev streamed : Entry
streamed = record { id = some "e2"; seq = some 2; kind = some "message"; payload = "two" }

abbrev stored : Entry
stored = record { id = some "e1"; seq = some 1; kind = some "message"; payload = "one" }

abbrev events : List SessionEvent
events = SessionEvent.entry_appended streamed ∷ SessionEvent.settled ∷ []

fold_trail_loaded-keeps_example :
    mem? "e2" (ids (shown (fold_trail_loaded (fold_all empty_live events) (stored ∷ []) 1).trail))
    ≡ (mem? "e2" (ids (stored ∷ [])) || (mem? "e2" (ids []) || mem? "e2" (ids (appended events))))
fold_trail_loaded-keeps_example =
    fold_trail_loaded-keeps empty_live events (stored ∷ []) 1 "e2" refl

fold_trail_loaded-IsOrdered_example :
    IsDistinct (shown (fold_trail_loaded empty_live (streamed ∷ stored ∷ streamed ∷ []) 2).trail)
    × IsOrdered (shown (fold_trail_loaded empty_live (streamed ∷ stored ∷ streamed ∷ []) 2).trail)
fold_trail_loaded-IsOrdered_example =
    fold_trail_loaded-IsOrdered empty_live (streamed ∷ stored ∷ streamed ∷ []) 2

tail-fold_trail_loaded_example :
    (1 ≤ tail (fold_trail_loaded empty_live (stored ∷ streamed ∷ []) 1).trail)
    × All
        (Covered (tail (fold_trail_loaded empty_live (stored ∷ streamed ∷ []) 1).trail))
        (shown (fold_trail_loaded empty_live (stored ∷ streamed ∷ []) 1).trail)
    × Attains
        (tail (fold_trail_loaded empty_live (stored ∷ streamed ∷ []) 1).trail)
        1
        (shown (fold_trail_loaded empty_live (stored ∷ streamed ∷ []) 1).trail)
tail-fold_trail_loaded_example = tail-fold_trail_loaded empty_live (stored ∷ streamed ∷ []) 1

abbrev loaded_trail : TrailData
loaded_trail = record { entries = stored ∷ []; tail_seq = 1 }

abbrev loaded_live : Live
loaded_live = record { pending = []; trail = TrailState.success loaded_trail; live = empty_region }

-- On a reconnect the read brings what came after the tail: the entry that was shown is gone.
fold_trail_loaded-replaces_example :
    mem? "e1" (ids (shown (fold_trail_loaded (fold_all loaded_live events) [] 2).trail))
    ≡ (mem? "e1" (ids []) || mem? "e1" (ids loaded_live.pending))
fold_trail_loaded-replaces_example = fold_trail_loaded-replaces loaded_live events [] 2 "e1" refl
