-- ===== src/Engine/PeerManager/Ties.antt =====
-- Two peers that dial each other at the same time.
use iroh_willow.Prelude.{
  ℕ, ◌<◌, ◌≡◌, refl, ap, sym, ◌∙◌, List, [], ◌∷◌, ◌++◌, if_cases, arith, Bool, true, false, ltb,
  none, some, append_assoc, append-nil,
}
use iroh_willow.Prelude.Map.{lookup_or, lookup_or-put_self}
use iroh_willow.Engine.PeerManager.{
  PeerInfo, ConnState, SessionState, establishing, Manager, new_peer, accepts, push_intent,
  handle_connection, set_peer, spawn_conn_task, emit, is_session_none, close_connection,
  our_dial_wins, cancel_dial, Effect, submit_to_session,
}

abbrev pub conn_of : ℕ → Manager → ConnState
conn_of k m = (lookup_or new_peer k m.peers).conn_state

abbrev pub session_of : ℕ → Manager → SessionState
session_of k m = (lookup_or new_peer k m.peers).session_state

pub ltb-true : (a b : ℕ) → a < b → ltb a b ≡ true
ltb-true a b h = ground arith

pub ltb-false : (a b : ℕ) → a < b → ltb b a ≡ false
ltb-false a b h = ground arith

pub push_intent-next_task :
    (k i : ℕ) (takes : Bool) (info : PeerInfo) (m : Manager)
    → (push_intent k i takes info m).1.next_task ≡ m.next_task
unfolding push_intent is_session_none emit
push_intent-next_task k i takes info m = ground arith

push_intent-effects :
    (k i : ℕ) (takes : Bool) (info : PeerInfo) (m : Manager)
    → (rest : List Effect) × ((push_intent k i takes info m).1.effects ≡ m.effects ++ rest)
unfolding push_intent emit
push_intent-effects k i takes info m =
    let P : PeerInfo × Manager × Bool → Type 0 =
      λ r. (rest : List Effect) × (r.1.effects ≡ m.effects ++ rest) in
    if_cases P (is_session_none info.session_state) (λ _. ([], sym (append-nil m.effects)))
      (λ _.
        if_cases P takes (λ _. (submit_to_session k i ∷ [], refl))
          (λ _. ([], sym (append-nil m.effects))))

module _ (k i : ℕ) (takes : Bool) (m : Manager) where
  -- What an accepted incoming connection leaves.
  accepted_conn_of :
      (accepts m.node_id k (conn_of k m)).0 ≡ true
      → conn_of k (handle_connection k (some i) takes m) ≡ establishing none m.next_task
  unfolding handle_connection set_peer spawn_conn_task
  accepted_conn_of e =
      let info : PeerInfo = lookup_or new_peer k m.peers in
      let m1 : Manager = record m {
        effects = m.effects ++ (accepts m.node_id k info.conn_state).1;
      } in
      let r : PeerInfo × Manager × Bool = push_intent k i takes info m1 in
      let info2 : PeerInfo = record r.0 { conn_state = establishing none r.1.next_task } in
      rw (e) (
        ap (λ p. p.conn_state) (lookup_or-put_self new_peer k info2 r.1.peers)
        ∙ ap (establishing none) (push_intent-next_task k i takes info m1))

  refused :
      (accepts m.node_id k (conn_of k m)).0 ≡ false
      → (conn_of k (handle_connection k (some i) takes m) ≡ conn_of k m)
        × ((handle_connection k (some i) takes m).effects
            ≡ m.effects ++ (accepts m.node_id k (conn_of k m)).1)
  unfolding handle_connection set_peer
  refused e =
      let info : PeerInfo = lookup_or new_peer k m.peers in
      rw (e) (ap (λ p. p.conn_state) (lookup_or-put_self new_peer k info m.peers), refl)

  accepted_effects :
      (first : List Effect)
      → accepts m.node_id k (conn_of k m) ≡ (true, first)
      → (rest : List Effect) × ((handle_connection k (some i) takes m).effects
          ≡ m.effects ++ (first ++ rest))
  unfolding handle_connection set_peer spawn_conn_task
  accepted_effects first e =
      let info : PeerInfo = lookup_or new_peer k m.peers in
      let m1 : Manager = record m { effects = m.effects ++ first } in
      let pushed : (rest : List Effect) × ((push_intent k i takes info m1).1.effects
            ≡ m1.effects ++ rest) =
        push_intent-effects k i takes info m1 in
      (pushed.0, rw (e) (pushed.1 ∙ append_assoc m.effects first pushed.0))

-- Two peers that dial each other, and to each of which the connection of the other comes in: the one
-- with the smaller id cancels its dial and waits for the incoming connection, the one with the
-- greater id closes the incoming connection and keeps its dial.
pub dials_agree :
    (low high : Manager) (i j : ℕ) (takes takes2 : Bool) (token task token2 task2 : ℕ)
    → low.node_id < high.node_id
    → conn_of high.node_id low ≡ establishing (some token) task
    → conn_of low.node_id high ≡ establishing (some token2) task2
    → let low1 = handle_connection high.node_id (some i) takes low in
      let high1 = handle_connection low.node_id (some j) takes2 high in
      (conn_of high.node_id low1 ≡ establishing none low.next_task)
      × ((rest : List Effect) × (low1.effects ≡ low.effects ++ cancel_dial token ∷ rest))
      × (conn_of low.node_id high1 ≡ establishing (some token2) task2)
      × (high1.effects ≡ high.effects ++ close_connection low.node_id our_dial_wins ∷ [])
unfolding accepts
dials_agree low high i j takes takes2 token task token2 task2 h e f =
    let wins : accepts low.node_id high.node_id (conn_of high.node_id low)
        ≡ (true, cancel_dial token ∷ []) =
      ap (accepts low.node_id high.node_id) e ∙ rw (ltb-true low.node_id high.node_id h) refl in
    let loses : accepts high.node_id low.node_id (conn_of low.node_id high)
        ≡ (false, close_connection low.node_id our_dial_wins ∷ []) =
      ap (accepts high.node_id low.node_id) f ∙ rw (ltb-false low.node_id high.node_id h) refl in
    let stays : (conn_of low.node_id (handle_connection low.node_id (some j) takes2 high)
          ≡ conn_of low.node_id high)
        × ((handle_connection low.node_id (some j) takes2 high).effects
            ≡ high.effects ++ (accepts high.node_id low.node_id (conn_of low.node_id high)).1) =
      refused low.node_id j takes2 high (ap (λ p. p.0) loses) in
    (
      accepted_conn_of high.node_id i takes low (ap (λ p. p.0) wins),
      accepted_effects high.node_id i takes low (cancel_dial token ∷ []) wins,
      stays.0 ∙ f,
      stays.1 ∙ ap (λ p. high.effects ++ p.1) loses,
    )
