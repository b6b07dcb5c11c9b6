-- ===== src/Engine/PeerManager/Races.antt =====
-- A connection that fails and is established again before its session has ended.
use iroh_willow.Prelude.{
  ℕ, ◌≡◌, refl, ap, subst, ◌∙◌, List, [], ◌∷◌, ◌++◌, if◌then◌else◌, if_cases, arith, Bool, false,
  Option, none, some,
}
use iroh_willow.Prelude.Map.{Map, lookup, put, remove, lookup_or, lookup-put, lookup_or-put_self}
use iroh_willow.Session.Challenge.{Role}
use iroh_willow.Session.Error.{ok, panicked}
use iroh_willow.Engine.PeerManager.{
  PeerInfo, run_conn, accept, idle, active, active_session, Manager, done, established, new_peer,
  set_peer, emit, abort_session, push_intent, handle_connection, accepts, is_session_none,
  spawn_conn_task,
}
use iroh_willow.Engine.PeerManager.Output.{
  Tick, incoming, joined, goes_on, turn, run, next, join_task, join_result, after_join,
  handle_conn_output, output_of, conn_output, on_established, on_done, when_active,
}
use iroh_willow.Engine.PeerManager.Ties.{conn_of, session_of, push_intent-next_task}

push_intent-session :
    (k i : ℕ) (takes : Bool) (info : PeerInfo) (m : Manager)
    → (push_intent k i takes info m).0.session_state ≡ info.session_state
unfolding push_intent is_session_none
push_intent-session k i takes info m = ground arith

-- Taking a connection keeps the session, and its task is the next one.
accepted_session_of :
    (k i : ℕ) (takes : Bool) (m : Manager)
    → session_of k (handle_connection k (some i) takes m) ≡ session_of k m
unfolding handle_connection set_peer spawn_conn_task
accepted_session_of k i takes m =
    let info : PeerInfo = lookup_or new_peer k m.peers in
    let m1 : Manager = record m {
      effects = m.effects ++ (accepts m.node_id k info.conn_state).1;
    } in
    let r : PeerInfo × Manager × Bool = push_intent k i takes info m1 in
    if_cases (λ m2. session_of k m2 ≡ session_of k m) (accepts m.node_id k info.conn_state).0
      (λ _.
        ap (λ p. p.session_state) (lookup_or-put_self new_peer k _ r.1.peers)
        ∙ push_intent-session k i takes info m1)
      (λ _. ap (λ p. p.session_state) (lookup_or-put_self new_peer k info m.peers))

panic_on_established :
    (k : ℕ) (role : Role) (starts : Bool) (o : Option PeerInfo) (m : Manager)
    → (elim o as (λ _. PeerInfo) [ none ↦ new_peer | some v ↦ v ]).session_state ≡ active_session
    → output_of k (established role starts) o m ≡ panicked
unfolding output_of conn_output on_established is_session_none new_peer
panic_on_established k role starts none m e = ground arith
panic_on_established k role starts (some info) m e = rw (e) refl

lookup-put_self : {V : Type 0} (k : ℕ) (v : V) (m : Map V) → lookup k (put k v m) ≡ some v
lookup-put_self k v m = ground (arith, lookup-put k k v m)

accepted_task :
    (k i : ℕ) (takes : Bool) (m : Manager)
    → conn_of k m ≡ idle
    → lookup m.next_task (handle_connection k (some i) takes m).conn_tasks ≡ some (k, accept)
unfolding handle_connection set_peer spawn_conn_task accepts
accepted_task k i takes m e =
    let info : PeerInfo = lookup_or new_peer k m.peers in
    let m1 : Manager = record m { effects = m.effects ++ [] } in
    let r : PeerInfo × Manager × Bool = push_intent k i takes info m1 in
    let found : lookup r.1.next_task (put r.1.next_task (k, accept) r.1.conn_tasks)
        ≡ some (k, accept) =
      lookup-put_self r.1.next_task (k, accept) r.1.conn_tasks in
    let same : r.1.next_task ≡ m.next_task = push_intent-next_task k i takes info m1 in
    rw (e) (
      subst (λ n. lookup n (put r.1.next_task (k, accept) r.1.conn_tasks) ≡ some (k, accept)) same
        found)

-- The state after the loops of an active connection failed while its session was active.
failed : ℕ → ℕ → PeerInfo → Manager → Manager
failed k task info m =
    set_peer k (record info { conn_state = idle })
      (emit (abort_session k) (record m { conn_tasks = remove task m.conn_tasks }))

loops_fail :
    (k task : ℕ) (info : PeerInfo) (m : Manager)
    → m.shutting_down ≡ false
    → lookup k m.peers ≡ some info
    → info.conn_state ≡ active task
    → info.session_state ≡ active_session
    → lookup task m.conn_tasks ≡ some (k, run_conn)
    → turn (joined task (done false)) m ≡ ok (goes_on (failed k task info m))
unfolding turn join_task handle_conn_output output_of conn_output on_done when_active
    is_session_none join_result after_join failed set_peer emit
loops_fail k task info m up here conn session task_here =
    let m1 : Manager = record m { conn_tasks = remove task m.conn_tasks } in
    ap (λ o. join_task task (done false) o m) task_here
    ∙ ap (λ o. join_result (output_of k (done false) o m1)) here
    ∙ rw (conn, session, up) refl

failed_peer :
    (k task : ℕ) (info : PeerInfo) (m : Manager)
    → lookup_or new_peer k (failed k task info m).peers ≡ record info { conn_state = idle }
unfolding failed set_peer emit
failed_peer k task info m =
    lookup_or-put_self new_peer k (record info { conn_state = idle }) m.peers

join_established :
    (k n : ℕ) (role : Role) (starts : Bool) (m : Manager)
    → lookup n m.conn_tasks ≡ some (k, accept)
    → session_of k m ≡ active_session
    → turn (joined n (established role starts)) m ≡ panicked
unfolding turn join_task handle_conn_output join_result
join_established k n role starts m task_here session =
    let m1 : Manager = record m { conn_tasks = remove n m.conn_tasks } in
    ap (λ o. join_task n (established role starts) o m) task_here
    ∙ ap join_result (panic_on_established k role starts (lookup k m.peers) m1 session)

-- The loops of a peer's active connection fail while its session is active, an incoming connection
-- of the peer arrives, and it is established before the end of the session was handled: the manager
-- reaches its `unreachable!` and panics.
pub reconnect_panics :
    (k i task : ℕ) (takes starts : Bool) (role : Role) (info : PeerInfo) (m : Manager)
    → m.shutting_down ≡ false
    → lookup k m.peers ≡ some info
    → info.conn_state ≡ active task
    → info.session_state ≡ active_session
    → lookup task m.conn_tasks ≡ some (k, run_conn)
    → run
        (joined task (done false)
          ∷ incoming k (some i) takes
          ∷ joined m.next_task (established role starts)
          ∷ [])
        m
      ≡ panicked
unfolding run next turn failed set_peer emit
reconnect_panics k i task takes starts role info m up here conn session task_here =
    let m1 : Manager = failed k task info m in
    let idle_peer : lookup_or new_peer k m1.peers ≡ record info { conn_state = idle } =
      failed_peer k task info m in
    let m2 : Manager = handle_connection k (some i) takes m1 in
    let ends : turn (joined m.next_task (established role starts)) m2 ≡ panicked =
      join_established k m.next_task role starts m2
        (accepted_task k i takes m1 (ap (λ p. p.conn_state) idle_peer))
        (accepted_session_of k i takes m1 ∙ ap (λ p. p.session_state) idle_peer ∙ session) in
    let last : List Tick = joined m.next_task (established role starts) ∷ [] in
    ap (next (run (incoming k (some i) takes ∷ last)))
      (loops_fail k task info m up here conn session task_here)
    ∙ ap (λ b. next (run last) (ok (goes_on (if b then m1 else m2)))) up
    ∙ ap (next (run [])) ends
