-- ===== src/Engine/PeerManager/Distinct.antt =====
-- A manager of src/engine/peer_manager.rs has one entry for a peer.
use iroh_willow.Prelude.{
  ℕ, ◌++◌, List, if_cases, Bool, true, false, Option, none, some, arith, not, subst, sym,
}
use iroh_willow.Prelude.Map.{lookup, lookup_or, IsDistinct, put-IsDistinct, remove-IsDistinct}
use iroh_willow.Session.Challenge.{Role}
use iroh_willow.Session.Error.{OnOk}
use iroh_willow.Engine.PeerManager.{
  PeerInfo, Manager, ConnFailure, ConnStep, establish_failed, established, done, closed,
  close_senders, new_peer, set_peer, remove_peer, spawn_conn_task, emit, connect_if_inactive,
  push_intent, submit_intent, handle_connection, accepts, session_complete, complete_peer,
  is_conn_none, none_left, is_session_none, idle, no_session, locally_closed, duplicate_conn,
  other_failure, abort_pending_intents,
}
use iroh_willow.Engine.PeerManager.Output.{
  on_establish_failed, on_established, on_done, on_closed, closed_now, conn_output,
}
use iroh_willow.Engine.PeerManager.Intents.{push_intent-peers}
use iroh_willow.Engine.PeerManager.Outputs.{OnOk-when_closed, OnOk-when_active}

abbrev pub Sound : Manager → Type 0
Sound m = IsDistinct m.peers

connect_if_inactive-Sound : (k : ℕ) (m : Manager) → Sound m → Sound (connect_if_inactive k m)
unfolding connect_if_inactive set_peer spawn_conn_task
connect_if_inactive-Sound k m d =
    if_cases Sound (is_conn_none (lookup_or new_peer k m.peers).conn_state)
      (λ _. put-IsDistinct k _ m.peers d) (λ _. put-IsDistinct k _ m.peers d)

push_intent-Sound :
    (k i : ℕ) (takes : Bool) (info : PeerInfo) (m : Manager)
    → Sound m
    → Sound (push_intent k i takes info m).1
push_intent-Sound k i takes info m d = subst IsDistinct (sym (push_intent-peers k i takes info m)) d

pub submit_intent-Sound :
    (k i : ℕ) (takes : Bool) (m : Manager) → Sound m → Sound (submit_intent k i takes m)
unfolding submit_intent set_peer
submit_intent-Sound k i takes m d =
    let r : PeerInfo × Manager × Bool = push_intent k i takes (lookup_or new_peer k m.peers) m in
    let back : Sound (set_peer k r.0 r.1) =
      put-IsDistinct k r.0 r.1.peers
        (push_intent-Sound k i takes (lookup_or new_peer k m.peers) m d) in
    if_cases Sound r.2 (λ _. back) (λ _. connect_if_inactive-Sound k (set_peer k r.0 r.1) back)

pub handle_connection-Sound :
    (k : ℕ) (init : Option ℕ) (takes : Bool) (m : Manager)
    → Sound m
    → Sound (handle_connection k init takes m)
unfolding handle_connection set_peer spawn_conn_task
handle_connection-Sound k none takes m d = d
handle_connection-Sound k (some i) takes m d =
    let info : PeerInfo = lookup_or new_peer k m.peers in
    let m1 : Manager = record m {
      effects = m.effects ++ (accepts m.node_id k info.conn_state).1;
    } in
    if_cases Sound (accepts m.node_id k info.conn_state).0
      (λ _.
        put-IsDistinct k _ (push_intent k i takes info m1).1.peers
          (push_intent-Sound k i takes info m1 d))
      (λ _. put-IsDistinct k info m.peers d)

complete_peer-Sound :
    (k : ℕ) (remaining : List ℕ) (info : PeerInfo) (m : Manager)
    → Sound m
    → Sound (complete_peer k remaining info m)
unfolding complete_peer set_peer remove_peer
complete_peer-Sound k remaining info m d =
    let info1 : PeerInfo = record info {
      pending_intents = info.pending_intents ++ remaining;
      session_state = no_session;
    } in
    let back : Sound (set_peer k info1 m) = put-IsDistinct k info1 m.peers d in
    if_cases Sound (is_conn_none info.conn_state)
      (λ _.
        if_cases Sound (none_left info1.pending_intents) (λ _. remove-IsDistinct k m.peers d)
          (λ _. connect_if_inactive-Sound k (set_peer k info1 m) back))
      (λ _. back)

pub session_complete-Sound :
    (k : ℕ) (remaining : List ℕ) (m : Manager) → Sound m → Sound (session_complete k remaining m)
unfolding session_complete emit
session_complete-Sound k remaining m d =
    let m1 : Manager = emit (close_senders k) m in
    elim (lookup k m.peers)
      as (λ o.
        Sound (elim o as (λ _. Manager) [
          | none ↦ m1
          | some info ↦ complete_peer k remaining info m1
        ])) [ none ↦ d | some info ↦ complete_peer-Sound k remaining info m1 d ]

module _ (k : ℕ) (info : PeerInfo) (m : Manager) (d : Sound m) where
  on_establish_failed-Sound : (failure : ConnFailure) → Sound (on_establish_failed k failure info m)
  unfolding on_establish_failed abort_pending_intents emit set_peer remove_peer
  on_establish_failed-Sound locally_closed = d
  on_establish_failed-Sound duplicate_conn =
      ground (arith, put-IsDistinct k (record info { conn_state = idle }) m.peers d)
  on_establish_failed-Sound other_failure =
      if_cases Sound (is_session_none info.session_state) (λ _. remove-IsDistinct k m.peers d)
        (λ _. put-IsDistinct k _ m.peers d)

  on_established-Sound :
      (role : Role) (starts : Bool) → OnOk Sound (on_established k role starts info m)
  unfolding on_established emit set_peer spawn_conn_task OnOk
  on_established-Sound role starts =
      if_cases (OnOk Sound) (not (is_session_none info.session_state)) (λ _. tt)
        (λ _.
          if_cases (OnOk Sound) m.shutting_down
            (λ _.
              if_cases Sound (none_left info.pending_intents) (λ _. put-IsDistinct k _ m.peers d)
                (λ _. put-IsDistinct k _ m.peers d))
            (λ _. if_cases (OnOk Sound) starts (λ _. put-IsDistinct k _ m.peers d) (λ _. tt)))

  on_done-Sound : (graceful : Bool) → OnOk Sound (on_done k graceful info m)
  unfolding on_done emit set_peer remove_peer spawn_conn_task abort_pending_intents OnOk
  on_done-Sound true = OnOk-when_active Sound info.conn_state _ (
      if_cases (OnOk Sound) (is_session_none info.session_state) (λ _. put-IsDistinct k _ m.peers d)
        (λ _. tt))
  on_done-Sound false = OnOk-when_active Sound info.conn_state _ (
      if_cases (OnOk Sound) (is_session_none info.session_state)
        (λ _. remove-IsDistinct k m.peers d) (λ _. put-IsDistinct k _ m.peers d))

  closed_now-Sound : (graceful : Bool) → Sound (closed_now k graceful info m)
  unfolding closed_now emit set_peer remove_peer abort_pending_intents
  closed_now-Sound graceful =
      let info1 : PeerInfo = record info { conn_state = idle } in
      let back : Sound (set_peer k info1 m) = put-IsDistinct k info1 m.peers d in
      if_cases Sound (not (none_left info.pending_intents))
        (λ _.
          if_cases Sound graceful (λ _. connect_if_inactive-Sound k (set_peer k info1 m) back)
            (λ _. put-IsDistinct k _ m.peers d))
        (λ _.
          if_cases Sound (is_session_none info.session_state) (λ _. remove-IsDistinct k m.peers d)
            (λ _. back))

  on_closed-Sound : (graceful : Bool) → OnOk Sound (on_closed k graceful info m)
  unfolding on_closed
  on_closed-Sound graceful =
      OnOk-when_closed Sound info.conn_state (closed_now k graceful info m) m
        (closed_now-Sound graceful) d

  pub conn_output-Sound : (out : ConnStep) → OnOk Sound (conn_output k out info m)
  unfolding conn_output OnOk
  conn_output-Sound (establish_failed failure) = on_establish_failed-Sound failure
  conn_output-Sound (established role starts) = on_established-Sound role starts
  conn_output-Sound (done graceful) = on_done-Sound graceful
  conn_output-Sound (closed graceful) = on_closed-Sound graceful
