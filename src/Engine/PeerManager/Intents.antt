-- ===== src/Engine/PeerManager/Intents.antt =====
-- No operation of src/engine/peer_manager.rs loses or doubles an intent.
use iroh_willow.Prelude.{
  ℕ, ◌+◌, ◌≡◌, refl, subst, ◌∙◌, List, [], ◌∷◌, ◌++◌, if◌then◌else◌, if_cases, if_both, arith, Bool,
  none, some,
}
use iroh_willow.Prelude.Map.{lookup_or}
use iroh_willow.Engine.PeerManager.{
  PeerInfo, ConnState, Effect, Manager, new_peer, emit, set_peer, spawn_conn_task, dial,
  establishing, is_conn_none, is_session_none, connect_if_inactive, push_intent, submit_to_session,
  submit_intent, handle_connection, accepts, ConnState, idle, active, terminating,
}
use iroh_willow.Engine.PeerManager.Count.{
  count, settles, settled, held, waiting, count-append, settled-append, held-set_peer, held-emit,
}

-- Replacing a peer's state by one with as many intents.
held-set_peer_same :
    (x k : ℕ) (info : PeerInfo) (m : Manager)
    → count x info.pending_intents ≡ waiting x k m.peers
    → held x (set_peer k info m) ≡ held x m
held-set_peer_same x k info m e = omega (arith, held-set_peer x k info m)

held-spawn : (x k : ℕ) (kind : _) (m : Manager) → held x (spawn_conn_task k kind m) ≡ held x m
unfolding held spawn_conn_task
held-spawn x k kind m = refl

pub held-connect_if_inactive : (x k : ℕ) (m : Manager) → held x (connect_if_inactive k m) ≡ held x m
unfolding connect_if_inactive waiting spawn_conn_task
held-connect_if_inactive x k m =
    let info : PeerInfo = lookup_or new_peer k m.peers in
    if_cases (λ m1. held x m1 ≡ held x m) (is_conn_none info.conn_state)
      (λ _.
        held-set_peer_same x k
          (record info { conn_state = establishing (some m.next_task) m.next_task })
          (spawn_conn_task k dial m) refl
        ∙ held-spawn x k dial m)
      (λ _. held-set_peer_same x k info m refl)

pub held-push_intent :
    (x k i : ℕ) (takes : Bool) (info : PeerInfo) (m : Manager)
    → let (info1, m1, _) = push_intent k i takes info m in
      held x m1 + count x info1.pending_intents
      ≡ held x m + count x info.pending_intents + count x (i ∷ [])
unfolding push_intent is_session_none settles
held-push_intent x k i takes info m =
    ground
      (arith, held-emit x (submit_to_session k i) m, count-append x info.pending_intents (i ∷ []))

pub push_intent-peers :
    (k i : ℕ) (takes : Bool) (info : PeerInfo) (m : Manager)
    → (push_intent k i takes info m).1.peers ≡ m.peers
unfolding push_intent is_session_none emit
push_intent-peers k i takes info m = ground arith

-- The peer that took an intent, put back, with any state of its connection.
held-push_then_set :
    (x k i : ℕ) (takes : Bool) (conn : ConnState → ConnState) (m : Manager)
    → let (info1, m1, _) = push_intent k i takes (lookup_or new_peer k m.peers) m in
      held x (set_peer k (record info1 { conn_state = conn info1.conn_state }) m1)
      ≡ held x m + count x (i ∷ [])
unfolding waiting
held-push_then_set x k i takes conn m =
    let info : PeerInfo = lookup_or new_peer k m.peers in
    let r : PeerInfo × Manager × Bool = push_intent k i takes info m in
    let back : held x (set_peer k (record r.0 { conn_state = conn r.0.conn_state }) r.1)
          + waiting x k m.peers
        ≡ held x r.1 + count x r.0.pending_intents =
      subst
        (λ p.
          held x (set_peer k (record r.0 { conn_state = conn r.0.conn_state }) r.1) + waiting x k p
          ≡ held x r.1 + count x r.0.pending_intents)
        (push_intent-peers k i takes info m)
        (held-set_peer x k (record r.0 { conn_state = conn r.0.conn_state }) r.1) in
    omega (arith, back, held-push_intent x k i takes info m)

pub held-submit_intent :
    (x k i : ℕ) (takes : Bool) (m : Manager)
    → held x (submit_intent k i takes m) ≡ held x m + count x (i ∷ [])
unfolding submit_intent
held-submit_intent x k i takes m =
    let r : PeerInfo × Manager × Bool = push_intent k i takes (lookup_or new_peer k m.peers) m in
    let m2 : Manager = set_peer k r.0 r.1 in
    let same : held x m2 ≡ held x m + count x (i ∷ []) =
      held-push_then_set x k i takes (λ c. c) m in
    if_cases (λ m3. held x m3 ≡ held x m + count x (i ∷ [])) r.2 (λ _. same)
      (λ _. held-connect_if_inactive x k m2 ∙ same)

-- Whether an incoming connection of a peer is accepted now.
unfoldable pub accepts_now : ℕ → Manager → Bool
accepts_now k m = (accepts m.node_id k (lookup_or new_peer k m.peers).conn_state).0

settled-accepts : (x k self : ℕ) (c : ConnState) → settled x (accepts self k c).1 ≡ 0
unfolding accepts settled settles
settled-accepts x k self idle = refl
settled-accepts x k self (establishing none _) = omega arith
settled-accepts x k self (establishing (some token) _) = ground arith
settled-accepts x k self (active _) = omega arith
settled-accepts x k self (terminating _) = refl

held-quiet :
    (x : ℕ) (es : List Effect) (m : Manager)
    → settled x es ≡ 0
    → held x (record m { effects = m.effects ++ es }) ≡ held x m
unfolding held
held-quiet x es m e = omega (arith, settled-append x m.effects es, e)

pub held-handle_connection :
    (x k i : ℕ) (takes : Bool) (m : Manager)
    → held x (handle_connection k (some i) takes m)
      ≡ held x m + (if accepts_now k m then count x (i ∷ []) else 0)
unfolding handle_connection accepts_now held set_peer spawn_conn_task waiting
held-handle_connection x k i takes m =
    let info : PeerInfo = lookup_or new_peer k m.peers in
    let first : List Effect = (accepts m.node_id k info.conn_state).1 in
    let m1 : Manager = record m { effects = m.effects ++ first } in
    let m2 : Manager = (push_intent k i takes info m1).1 in
    let quiet : held x m1 ≡ held x m =
      held-quiet x first m (settled-accepts x k m.node_id info.conn_state) in
    if_both (λ m3 n. held x m3 ≡ held x m + n) (accepts m.node_id k info.conn_state).0
      (omega
        (arith, quiet, held-push_then_set x k i takes (λ _. establishing none m2.next_task) m1))
      (omega (arith, quiet, held-set_peer_same x k info m1 refl))
