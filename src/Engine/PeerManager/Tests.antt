-- ===== src/Engine/PeerManager/Tests.antt =====
-- Runs of the peer manager at concrete inputs.
use iroh_willow.Prelude.{◌+◌, ℕ, ◌≡◌, refl, List, [], ◌∷◌, true, false, none, some, arith}
use iroh_willow.Prelude.Map.{IsDistinct}
use iroh_willow.Session.Challenge.{betty}
use iroh_willow.Session.Error.{OnOk, Result, ok, err, panicked}
use iroh_willow.Engine.PeerManager.{
  PeerInfo, Effect, Manager, new_manager, new_peer, is_session_none, is_conn_none, none_left, emit,
  set_peer, remove_peer, spawn_conn_task, push_intent, abort_pending_intents, connect_if_inactive,
  submit_intent, accepts, handle_connection, complete_peer, session_complete, establishing, active,
  active_session, locally_closed, other_failure, establish_failed, established, done, closed, dial,
  run_conn, our_dial_wins, close_connection, cancel_dial, close_senders, submit_to_session,
  init_session, abort_intents,
}
use iroh_willow.Engine.PeerManager.Output.{
  on_establish_failed, on_established, when_active, on_done, closed_now, when_closed, on_closed,
  conn_output, output_of, handle_conn_output, shutdown_conn, shutdown_session, shutdown_peers,
  init_shutdown, Tick, Turn, after_join, join_result, join_task, turn, next, run, submitted,
  incoming, shutdown, completed, joined, cancelled, timed_out, goes_on, stops,
}
use iroh_willow.Engine.PeerManager.Count.{count, pending, settles, settled, held}
use iroh_willow.Engine.PeerManager.Intents.{accepts_now}
use iroh_willow.Engine.PeerManager.Conserve.{
  state_of, given_after, handed, refuses_in, refuses_peer, lost, handed_all, lost_all,
  run_keeps_intents,
}
use iroh_willow.Engine.PeerManager.Ties.{conn_of, dials_agree}
use iroh_willow.Engine.PeerManager.Shutdown.{
  EndsIdle, turn-EndsIdle, all_cancelled, aborted_shutdown_waits,
}
use iroh_willow.Engine.PeerManager.Races.{reconnect_panics}

program : Unit {0}
unfolding new_manager new_peer is_session_none is_conn_none none_left emit set_peer remove_peer
    spawn_conn_task push_intent abort_pending_intents connect_if_inactive submit_intent accepts
    handle_connection complete_peer session_complete on_establish_failed on_established when_active
    on_done closed_now when_closed on_closed conn_output output_of handle_conn_output shutdown_conn
    shutdown_session shutdown_peers init_shutdown after_join join_result join_task turn next run
    count pending settles settled held accepts_now OnOk state_of given_after handed refuses_in
    refuses_peer lost handed_all lost_all EndsIdle all_cancelled
program = tt

-- Peers 5 and 9 dial each other; the session of the connection of 9 runs, leaves an intent behind
-- and ends; the dial for what is left fails.
abbrev ticks : List Tick
ticks =
    submitted 9 1 false
    ∷ incoming 9 (some 2) false
    ∷ joined 0 (establish_failed locally_closed)
    ∷ joined 1 (established betty true)
    ∷ submitted 9 3 true
    ∷ completed 9 (4 ∷ [])
    ∷ joined 2 (done true)
    ∷ joined 3 (closed true)
    ∷ joined 4 (establish_failed other_failure)
    ∷ []

abbrev effects_of : Result Turn → List Effect
effects_of (ok (goes_on m)) = m.effects
effects_of (ok (stops m)) = m.effects
effects_of (err _) = []
effects_of panicked = []

ticks-run :
    effects_of (run ticks (new_manager 5))
    ≡ cancel_dial 0
      ∷ init_session 9 betty (1 ∷ 2 ∷ [])
      ∷ submit_to_session 9 3
      ∷ close_senders 9
      ∷ abort_intents (4 ∷ [])
      ∷ []
unfolding program
ticks-run = refl

run_keeps_intents_example :
    OnOk
      (λ r.
        (held 4 (state_of r) + lost_all 4 ticks (new_manager 5)
          ≡ handed_all 4 ticks (new_manager 5))
        × IsDistinct (state_of r).peers)
      (run ticks (new_manager 5))
run_keeps_intents_example = run_keeps_intents 5 4 ticks

handed_once : handed_all 4 ticks (new_manager 5) ≡ 1
unfolding program
handed_once = refl

abbrev dialing : ℕ → ℕ → Manager
dialing self peer = record (new_manager self) {
  peers =
      (peer, record new_peer { pending_intents = 1 ∷ []; conn_state = establishing (some 0) 0 })
      ∷ [];
  conn_tasks = (0, (peer, dial)) ∷ [];
  next_task = 1;
}

dials_agree_example :
    let low = dialing 5 9 in
    let high = dialing 9 5 in
    let low1 = handle_connection 9 (some 2) false low in
    let high1 = handle_connection 5 (some 3) false high in
    (conn_of 9 low1 ≡ establishing none 1)
    × ((rest : List Effect) × (low1.effects ≡ cancel_dial 0 ∷ rest))
    × (conn_of 5 high1 ≡ establishing (some 0) 0)
    × (high1.effects ≡ close_connection 5 our_dial_wins ∷ [])
unfolding new_manager new_peer
dials_agree_example =
    dials_agree (dialing 5 9) (dialing 9 5) 2 3 false false 0 0 0 0 (omega arith) refl refl

turn-EndsIdle_example : OnOk EndsIdle (turn shutdown (new_manager 5))
turn-EndsIdle_example = turn-EndsIdle shutdown (new_manager 5)

turn-shutdown_stops :
    turn shutdown (new_manager 5) ≡ ok (stops (record (new_manager 5) { shutting_down = true }))
unfolding program
turn-shutdown_stops = refl

abbrev stopping : Manager
stopping = record (dialing 5 9) { shutting_down = true }

aborted_shutdown_waits_example :
    (run (cancelled 0 ∷ []) stopping ≡ ok (goes_on (record stopping { conn_tasks = [] })))
    × (run (cancelled 0 ∷ timed_out ∷ []) stopping
        ≡ ok (stops (record stopping { conn_tasks = [] })))
    × (after_join (record stopping { conn_tasks = [] })
        ≡ stops (record stopping { conn_tasks = [] }))
unfolding all_cancelled new_manager
aborted_shutdown_waits_example = aborted_shutdown_waits stopping refl (refl, tt)

abbrev connected : PeerInfo
connected = record { pending_intents = []; conn_state = active 0; session_state = active_session }

abbrev running : Manager
running = record (new_manager 5) {
  peers = (9, connected) ∷ [];
  conn_tasks = (0, (9, run_conn)) ∷ [];
  next_task = 1;
}

reconnect_panics_example :
    run
      (joined 0 (done false) ∷ incoming 9 (some 2) false ∷ joined 1 (established betty true) ∷ [])
      running
    ≡ panicked
unfolding new_manager
reconnect_panics_example =
    reconnect_panics 9 2 0 false true betty connected running refl refl refl refl refl
