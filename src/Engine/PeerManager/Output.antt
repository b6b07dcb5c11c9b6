-- ===== src/Engine/PeerManager/Output.antt =====
-- `handle_conn_output` and the loop of `PeerManager::run`. An `unreachable!` that is reached is
-- `panicked`; an error of the manager ends its loop.
use iroh_willow.Prelude.{
  ℕ, Bool, true, false, ◌&&◌, not, Option, none, some, List, [], ◌∷◌, ◌++◌, if◌then◌else◌,
}
use iroh_willow.Prelude.Map.{Map, lookup, put, remove}
use iroh_willow.Session.Challenge.{Role}
use iroh_willow.Session.Error.{Error, Result, ok, err, panicked}
use iroh_willow.Engine.PeerManager.{
  ConnState, idle, establishing, active, terminating, SessionState, no_session, active_session,
  PeerInfo, ConnFailure, locally_closed, duplicate_conn, other_failure, ConnStep, TaskKind,
  establish_failed, established, done, closed, run_conn, close_conn, closed_for_shutdown, Effect,
  close_connection, abort_task, abort_session, init_session, abort_intents, Manager,
  is_session_none, none_left, emit, set_peer, remove_peer, spawn_conn_task, abort_pending_intents,
  connect_if_inactive, submit_intent, handle_connection, session_complete,
}

-- Establishing failed.
unfoldable pub on_establish_failed : ℕ → ConnFailure → PeerInfo → Manager → Manager
on_establish_failed peer locally_closed info m = m
on_establish_failed peer duplicate_conn info m = elim info.conn_state [
  | establishing (some _) _ ↦ set_peer peer (record info { conn_state = idle }) m
  | _ ↦ m
]
on_establish_failed peer other_failure info m =
    let info1 = record info { conn_state = idle } in
    if is_session_none info.session_state
    then remove_peer peer (abort_pending_intents info1 m).1
    else set_peer peer info1 m

-- A connection was established.
unfoldable pub on_established : ℕ → Role → Bool → PeerInfo → Manager → Result Manager
on_established peer role starts info m =
    if not (is_session_none info.session_state)
    then panicked
    else let intents = info.pending_intents in
      let taken = record info { pending_intents = [] } in
      if m.shutting_down
      then (let m1 = emit (close_connection peer closed_for_shutdown) (set_peer peer taken m) in
          ok (if none_left intents then m1 else emit (abort_intents intents) m1))
      else if starts
      then ok (
          set_peer peer
            (record taken { conn_state = active m.next_task; session_state = active_session })
            (spawn_conn_task peer run_conn (
              emit (init_session peer role intents)
                (record m { event_streams = put peer tt m.event_streams }))))
      else err Error.net

-- The loops of a connection finish only while it is active.
unfoldable pub when_active : ConnState → Result Manager → Result Manager
when_active (active _) r = r
when_active _ r = panicked

-- The loops of a connection finished: gracefully, or with an error.
unfoldable pub on_done : ℕ → Bool → PeerInfo → Manager → Result Manager
on_done peer true info m = when_active info.conn_state (
    if is_session_none info.session_state
    then ok (
        set_peer peer (record info { conn_state = terminating m.next_task })
          (spawn_conn_task peer close_conn m))
    else panicked)
on_done peer false info m = when_active info.conn_state (
    if is_session_none info.session_state
    then ok (remove_peer peer (abort_pending_intents info m).1)
    else ok (set_peer peer (record info { conn_state = idle }) (emit (abort_session peer) m)))

-- The terminating connection of a peer was closed: gracefully, or with an error.
unfoldable pub closed_now : ℕ → Bool → PeerInfo → Manager → Manager
closed_now peer graceful info m =
    let info1 = record info { conn_state = idle } in
    if not (none_left info.pending_intents)
    then (if graceful
        then connect_if_inactive peer (set_peer peer info1 m)
        else (let (info2, m2) = abort_pending_intents info1 m in set_peer peer info2 m2))
    else if is_session_none info.session_state
    then remove_peer peer m
    else set_peer peer info1 m

unfoldable pub when_closed : ConnState → Manager → Manager → Result Manager
when_closed (terminating _) after m = ok after
when_closed (establishing _ _) after m = ok m
when_closed (active _) after m = ok m
when_closed idle after m = panicked

unfoldable pub on_closed : ℕ → Bool → PeerInfo → Manager → Result Manager
on_closed peer graceful info m = when_closed info.conn_state (closed_now peer graceful info m) m

unfoldable pub conn_output : ℕ → ConnStep → PeerInfo → Manager → Result Manager
conn_output peer (establish_failed failure) info m = ok (on_establish_failed peer failure info m)
conn_output peer (established role starts) info m = on_established peer role starts info m
conn_output peer (done graceful) info m = on_done peer graceful info m
conn_output peer (closed graceful) info m = on_closed peer graceful info m

unfoldable pub output_of : ℕ → ConnStep → Option PeerInfo → Manager → Result Manager
output_of peer out none m = err Error.net
output_of peer out (some info) m = conn_output peer out info m

unfoldable pub handle_conn_output : ℕ → ConnStep → Manager → Result Manager
handle_conn_output peer out m = output_of peer out (lookup peer m.peers) m

-- What a shutdown does to each peer.
unfoldable pub shutdown_conn : ConnState → List Effect
shutdown_conn (establishing _ task) = abort_task task ∷ []
shutdown_conn _ = []

unfoldable pub shutdown_session : ℕ → SessionState → List Effect
shutdown_session peer no_session = []
shutdown_session peer active_session = abort_session peer ∷ []

unfoldable pub shutdown_peers : Map PeerInfo → List Effect
shutdown_peers [] = []
shutdown_peers ((peer, info) ∷ rest) =
    shutdown_conn info.conn_state
    ++ (shutdown_session peer info.session_state ++ shutdown_peers rest)

unfoldable pub init_shutdown : Manager → Manager
init_shutdown m = record m { shutting_down = true; effects = m.effects ++ shutdown_peers m.peers }

-- What wakes the loop: an input, the end of a session, the output of a task, an aborted or a crashed
-- task, or the time limit of a shutdown.
pub data Tick : Type 0 where
  submitted : ℕ → ℕ → Bool → Tick
  incoming : ℕ → Option ℕ → Bool → Tick
  shutdown : Tick
  completed : ℕ → List ℕ → Tick
  joined : ℕ → ConnStep → Tick
  cancelled : ℕ → Tick
  crashed : ℕ → Tick
  timed_out : Tick

-- The state after a turn of the loop, and whether the loop goes on.
pub data Turn : Type 0 where
  goes_on : Manager → Turn
  stops : Manager → Turn

unfoldable pub after_join : Manager → Turn
after_join m = if m.shutting_down && none_left m.conn_tasks then stops m else goes_on m

unfoldable pub join_result : Result Manager → Result Turn
join_result (ok m) = ok (after_join m)
join_result (err e) = err e
join_result panicked = panicked

unfoldable pub join_task : ℕ → ConnStep → Option (ℕ × TaskKind) → Manager → Result Turn
join_task task out none m = ok (goes_on m)
join_task task out (some (peer, kind)) m =
    join_result (handle_conn_output peer out (record m { conn_tasks = remove task m.conn_tasks }))

-- One turn of the loop. The inbox is not read while shutting down; a task that joins is taken out
-- of the set first.
unfoldable pub turn : Tick → Manager → Result Turn
turn (submitted peer intent takes) m =
    ok (goes_on (if m.shutting_down then m else submit_intent peer intent takes m))
turn (incoming peer init takes) m =
    ok (goes_on (if m.shutting_down then m else handle_connection peer init takes m))
turn shutdown m =
    if m.shutting_down
    then ok (goes_on m)
    else (let m1 = init_shutdown m in ok (if none_left m1.conn_tasks then stops m1 else goes_on m1))
turn (completed peer remaining) m = ok (goes_on (session_complete peer remaining m))
turn (joined task out) m = join_task task out (lookup task m.conn_tasks) m
turn (cancelled task) m = ok (goes_on (record m { conn_tasks = remove task m.conn_tasks }))
turn (crashed task) m = err Error.net
turn timed_out m = ok (if m.shutting_down then stops (record m { conn_tasks = [] }) else goes_on m)

unfoldable pub next : (Manager → Result Turn) → Result Turn → Result Turn
next f (ok (goes_on m)) = f m
next f (ok (stops m)) = ok (stops m)
next f (err e) = err e
next f panicked = panicked

-- The loop over a sequence of ticks.
unfoldable pub run : List Tick → Manager → Result Turn
run [] m = ok (goes_on m)
run (t ∷ ts) m = next (run ts) (turn t m)
