-- ===== src/Relay/Tests.antt =====
-- The relay at concrete inputs.
use saku.Base.{String, none, some, [], ◌∷◌, ◌++◌, ◌≡◌, refl, map, or_else}
use saku.Base.Map.{get}
use saku.Relay.{empty_relay, attach, register, waiter_closed}
use saku.Relay.Pairing.{buffer_frames, attach-register, register-pairs_closed}

no-daemon : get "env" empty_relay.envs ≡ none
unfolding get
no-daemon = refl

no-waiter : or_else (get "env" empty_relay.waiting) [] ≡ []
unfolding get
no-waiter = refl

attach-register_example :
    (get "env"
        (register
          (buffer_frames (attach empty_relay "env" "w") "w" ("a" ∷ "b" ∷ []))
          "env"
          "d").workers
      ≡ some "w")
    × ((register (buffer_frames (attach empty_relay "env" "w") "w" ("a" ∷ "b" ∷ [])) "env" "d").sent
        ≡ empty_relay.sent ++ map (λ (frame : String). ("d", frame)) ("a" ∷ "b" ∷ []))
attach-register_example =
    attach-register empty_relay "env" "w" "d" ("a" ∷ "b" ∷ []) no-daemon no-waiter

register-pairs_closed_example :
    get "env"
      (register
        (attach (waiter_closed (attach empty_relay "env" "w") "w") "env" "v")
        "env"
        "d").workers
    ≡ some "w"
register-pairs_closed_example =
    register-pairs_closed empty_relay "env" "w" "v" "d" no-daemon no-waiter refl
