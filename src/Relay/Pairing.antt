-- ===== src/Relay/Pairing.antt =====
-- relay-core.ts: what a worker that attaches before its env's daemon gets.
use saku.Base.{
  append-nil, append_assoc, String, Bool, true, false, Option, none, some, List, [], ◌∷◌, ◌++◌, ◌≡◌,
  refl, sym, ap, ◌∙◌, subst, if◌then◌else◌, or_else, str_eq, map,
}
use saku.Base.Map.{Map, get, put, remove, get-put_self}
use saku.Relay.{
  Relay, Socket, attach, buffer_frame, waiter_closed, register, pair_waiting, pipe_both, refuse_all,
  flush, close_previous, close_socket, fail_socket, add,
}

unfoldable pub buffer_frames : Relay → Socket → List String → Relay
buffer_frames s socket [] = s
buffer_frames s socket (frame ∷ frames) = buffer_frames (buffer_frame s socket frame) socket frames

-- The parts of a relay that buffering leaves alone.
abbrev Rest : Type 0
Rest = Map Socket × Map (List Socket) × Map Socket × List (Socket × String)

abbrev rest : Relay → Rest
rest s = (s.envs, s.waiting, s.workers, s.sent)

abbrev buffered : Relay → Socket → List String → Relay
buffered s socket frames = record s { buffers = put socket frames s.buffers }

buffer_frame-some :
    (s : Relay) (socket : Socket) (frame : String) (old : List String)
    → get socket s.buffers ≡ some old
    → buffer_frame s socket frame ≡ buffered s socket (old ++ frame ∷ [])
unfolding buffer_frame
buffer_frame-some s socket frame old h =
    ap
      (λ x. elim x as (λ _. Relay) [
        | none ↦ s
        | some frames ↦ buffered s socket (frames ++ frame ∷ [])
      ])
      h

buffers-buffer_frames :
    (s : Relay) (socket : Socket) (old frames : List String)
    → get socket s.buffers ≡ some old
    → (get socket (buffer_frames s socket frames).buffers ≡ some (old ++ frames))
      × (rest (buffer_frames s socket frames) ≡ rest s)
unfolding buffer_frames
buffers-buffer_frames s socket old [] h = (h ∙ ap some (sym (append-nil old)), refl)
buffers-buffer_frames s socket old (f ∷ frames) h =
    subst
      (λ t.
        (get socket (buffer_frames t socket frames).buffers ≡ some (old ++ f ∷ frames))
        × (rest (buffer_frames t socket frames) ≡ rest s))
      (sym (buffer_frame-some s socket f old h))
      (shift (
        buffers-buffer_frames (buffered s socket (old ++ f ∷ [])) socket (old ++ f ∷ []) frames
          (get-put_self socket (old ++ f ∷ []) s.buffers)))
  where
    shift :
        {l : Option (List String)} {r : Rest}
        → (l ≡ some ((old ++ f ∷ []) ++ frames)) × (r ≡ rest s)
        → (l ≡ some (old ++ f ∷ frames)) × (r ≡ rest s)
    shift (e, same) = (e ∙ ap some (append_assoc old (f ∷ []) frames), same)

-- A socket that attaches before any daemon waits, with an empty buffer.
attach-waits :
    (s : Relay) (env_id : String) (socket : Socket)
    → get env_id s.envs ≡ none
    → attach s env_id socket ≡ record s {
      buffers = put socket [] s.buffers;
      waiting = put env_id (add socket (or_else (get env_id s.waiting) [])) s.waiting;
    }
unfolding attach
attach-waits s env_id socket h =
    ap
      (λ x. elim x as (λ _. Relay) [
        | some daemon ↦ pipe_both s env_id socket daemon
        | none ↦ record s {
          buffers = put socket [] s.buffers;
          waiting = put env_id (add socket (or_else (get env_id s.waiting) [])) s.waiting;
        }
      ])
      h

-- What pairing and refusing come to.
refuse_all-keeps :
    (s : Relay) (sockets : List Socket)
    → ((refuse_all s sockets).workers ≡ s.workers) × ((refuse_all s sockets).sent ≡ s.sent)
unfolding refuse_all
refuse_all-keeps s [] = (refl, refl)
refuse_all-keeps s (x ∷ sockets) = refuse_all-keeps (fail_socket s x "already attached") sockets

flush-sends :
    (s : Relay) (worker daemon : Socket) (frames : List String)
    → get worker s.buffers ≡ some frames
    → flush s worker daemon ≡ record s {
      buffers = remove worker s.buffers;
      sent = s.sent ++ map (λ (frame : String). (daemon, frame)) frames;
    }
flush-sends s worker daemon frames h =
    ap
      (λ x. elim x as (λ _. Relay) [
        | none ↦ s
        | some frames ↦ record s {
          buffers = remove worker s.buffers;
          sent = s.sent ++ map (λ (frame : String). (daemon, frame)) frames;
        }
      ])
      h

sent-close_previous :
    (s : Relay) (previous : Option Socket) (socket : Socket)
    → (close_previous s previous socket).sent ≡ s.sent
sent-close_previous s none socket = refl
sent-close_previous s (some p) socket = at (str_eq p socket)
  where
    at : (b : Bool) → (if b then s else close_socket s p).sent ≡ s.sent
    at true = refl
    at false = refl

sent-pipe_both :
    (s : Relay) (env_id : String) (worker daemon : Socket) (frames : List String)
    → get worker s.buffers ≡ some frames
    → (pipe_both s env_id worker daemon).sent
      ≡ s.sent ++ map (λ (frame : String). (daemon, frame)) frames
unfolding pipe_both
sent-pipe_both s env_id worker daemon frames h =
    sent-close_previous (flush s worker daemon) _ worker
    ∙ ap (λ (t : Relay). t.sent) (flush-sends s worker daemon frames h)

workers-pipe_both :
    (s : Relay) (env_id : String) (worker daemon : Socket)
    → get env_id (pipe_both s env_id worker daemon).workers ≡ some worker
unfolding pipe_both
workers-pipe_both s env_id worker daemon = get-put_self env_id worker _

-- What a registration does with those that wait, where no other daemon is registered.
register-pairs :
    (s : Relay) (env_id : String) (daemon worker : Socket) (others : List Socket)
    (frames : List String)
    → get env_id s.envs ≡ none
    → get env_id s.waiting ≡ some (worker ∷ others)
    → (get env_id (register s env_id daemon).workers ≡ some worker)
      × (get worker s.buffers ≡ some frames
          → (register s env_id daemon).sent
            ≡ s.sent ++ map (λ (frame : String). (daemon, frame)) frames)
unfolding register pair_waiting
register-pairs s env_id daemon worker others frames unregistered waits =
    subst
      (λ (t : Relay).
        (get env_id t.workers ≡ some worker)
        × (get worker s.buffers ≡ some frames
            → t.sent ≡ s.sent ++ map (λ (frame : String). (daemon, frame)) frames))
      (sym whole)
      (
        ap (get env_id) (refuse_all-keeps paired others).0
            ∙ workers-pipe_both registered env_id worker daemon,
        λ h.
            (refuse_all-keeps paired others).1
            ∙ sent-pipe_both registered env_id worker daemon frames h,
      )
  where
    registered : Relay
    registered = record s { envs = put env_id daemon s.envs }

    paired : Relay
    paired = pipe_both registered env_id worker daemon

    after : Relay → List Socket → Relay
    after t sockets = record (pair_waiting t env_id daemon sockets) {
      waiting = put env_id [] (pair_waiting t env_id daemon sockets).waiting;
    }

    whole : register s env_id daemon ≡ after registered (worker ∷ others)
    whole =
        ap
          (λ e.
            let closed = close_previous s e daemon in
            let fresh = record closed { envs = put env_id daemon closed.envs } in
            elim (get env_id fresh.waiting) as (λ _. Relay) [
              | none ↦ fresh
              | some sockets ↦ after fresh sockets
            ])
          unregistered
        ∙ ap
            (λ w. elim w as (λ _. Relay) [
              | none ↦ registered
              | some sockets ↦ after registered sockets
            ])
            waits

-- A worker that attaches to an env whose daemon is not there yet, and that no other worker waits for
-- (the first time or after others were paired, refused or given up on), loses none of its frames: whatever it sends while it waits reaches the daemon in that order once the
-- daemon registers, and the two are paired.
pub attach-register :
    (s : Relay) (env_id : String) (worker daemon : Socket) (frames : List String)
    → get env_id s.envs ≡ none
    → or_else (get env_id s.waiting) [] ≡ []
    → (get env_id
          (register (buffer_frames (attach s env_id worker) worker frames) env_id daemon).workers
        ≡ some worker)
      × ((register (buffer_frames (attach s env_id worker) worker frames) env_id daemon).sent
          ≡ s.sent ++ map (λ (frame : String). (daemon, frame)) frames)
attach-register s env_id worker daemon frames unregistered alone =
    subst
      (λ (t : Relay).
        (get env_id (register (buffer_frames t worker frames) env_id daemon).workers ≡ some worker)
        × ((register (buffer_frames t worker frames) env_id daemon).sent
            ≡ s.sent ++ map (λ (frame : String). (daemon, frame)) frames))
      (sym (attach-waits s env_id worker unregistered))
      (
        pairs.0,
        pairs.1 kept.0
            ∙ ap (λ (r : Rest). r.3 ++ map (λ (frame : String). (daemon, frame)) frames) kept.1,
      )
  where
    waits : Relay
    waits = record s {
      buffers = put worker [] s.buffers;
      waiting = put env_id (add worker (or_else (get env_id s.waiting) [])) s.waiting;
    }

    held : Relay
    held = buffer_frames waits worker frames

    kept : (get worker held.buffers ≡ some frames) × (rest held ≡ rest waits)
    kept = buffers-buffer_frames waits worker [] frames (get-put_self worker [] s.buffers)

    pairs :
        (get env_id (register held env_id daemon).workers ≡ some worker)
        × (get worker held.buffers ≡ some frames
            → (register held env_id daemon).sent
              ≡ held.sent ++ map (λ (frame : String). (daemon, frame)) frames)
    pairs =
        register-pairs held env_id daemon worker [] frames
          (ap (λ (r : Rest). get env_id r.0) kept.1 ∙ unregistered)
          (ap (λ (r : Rest). get env_id r.1) kept.1
            ∙ get-put_self env_id (add worker (or_else (get env_id s.waiting) [])) s.waiting
            ∙ ap (λ w. some (add worker w)) alone)

-- A worker that attaches to an env without a daemon or other waiting workers, and whose socket closes,
-- still stands in the daemon's way: if a worker with another socket attaches next and the daemon
-- registers, the daemon is paired with the closed socket.
pub register-pairs_closed :
    (s : Relay) (env_id : String) (gone later daemon : Socket)
    → get env_id s.envs ≡ none
    → or_else (get env_id s.waiting) [] ≡ []
    → str_eq gone later ≡ false
    → get env_id
        (register
          (attach (waiter_closed (attach s env_id gone) gone) env_id later)
          env_id
          daemon).workers
      ≡ some gone
unfolding waiter_closed
register-pairs_closed s env_id gone later daemon unregistered alone apart =
    ap
      (λ (t : Relay).
        get env_id
          (register (attach (record t { buffers = remove gone t.buffers }) env_id later) env_id
            daemon).workers)
      (attach-waits s env_id gone unregistered)
    ∙ ap (λ (t : Relay). get env_id (register t env_id daemon).workers)
        (attach-waits closed env_id later unregistered)
    ∙ (register-pairs _ env_id daemon gone (later ∷ []) [] unregistered both).0
  where
    one : List Socket
    one = add gone (or_else (get env_id s.waiting) [])

    closed : Relay
    closed = record s {
      buffers = remove gone (put gone [] s.buffers);
      waiting = put env_id one s.waiting;
    }

    both :
        get env_id (put env_id (add later (or_else (get env_id closed.waiting) [])) closed.waiting)
        ≡ some (gone ∷ later ∷ [])
    both =
        get-put_self env_id _ _
        ∙ ap (λ w. some (add later (or_else w []))) (get-put_self env_id one s.waiting)
        ∙ ap (λ w. some (add later (add gone w))) alone
        ∙ rw (apart) refl
