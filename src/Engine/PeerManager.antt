-- ===== src/Engine/PeerManager.antt =====
-- `PeerManager` of src/engine/peer_manager.rs: the connection and the session of every peer, and the
-- tasks that establish, run and close connections. Peers, intents and tasks are numbers; a dial is
-- cancelled by the number of its task. What the manager does to the outside is recorded in order.
-- The connection tasks themselves are the environment: their outputs are inputs here.
pub mod Output
pub mod Count
pub mod Intents
mod Tests
pub mod Races
pub mod Shutdown
pub mod Ties
pub mod Conserve
pub mod Distinct
pub mod Outputs
use iroh_willow.Prelude.{
  ℕ, ◌+◌, Bool, true, false, ◌&&◌, Option, none, some, List, [], ◌∷◌, ◌++◌, map, ltb, if◌then◌else◌,
}
use iroh_willow.Prelude.Map.{Map, lookup, put, remove, lookup_or}
use iroh_willow.Session.Challenge.{Role, alfie, betty}
use iroh_willow.Session.Error.{Error, Result, ok, err, panicked}

pub data ConnState : Type 0 where
  idle : ConnState
  -- The task of our own dial, if there is one, and the task that establishes the connection.
  establishing : Option ℕ → ℕ → ConnState
  active : ℕ → ConnState
  terminating : ℕ → ConnState

pub data SessionState : Type 0 where
  no_session : SessionState
  active_session : SessionState

pub record PeerInfo : Type 0 where
  pub pending_intents : List ℕ
  pub conn_state : ConnState
  pub session_state : SessionState

-- Why establishing a connection failed: closed by us, closed by the remote as a duplicate, other.
pub data ConnFailure : Type 0 where
  locally_closed duplicate_conn other_failure : ConnFailure

-- What a task hands back. The flag of an established connection says whether preparing its channels
-- and starting its session succeed.
pub data ConnStep : Type 0 where
  establish_failed : ConnFailure → ConnStep
  established : Role → Bool → ConnStep
  done : Bool → ConnStep
  closed : Bool → ConnStep

pub data TaskKind : Type 0 where
  dial accept run_conn close_conn : TaskKind

pub data CloseReason : Type 0 where
  already_accepting our_dial_wins already_active closed_for_shutdown : CloseReason

pub data Effect : Type 0 where
  close_connection : ℕ → CloseReason → Effect
  cancel_dial : ℕ → Effect
  abort_task : ℕ → Effect
  abort_session : ℕ → Effect
  close_senders : ℕ → Effect
  submit_to_session : ℕ → ℕ → Effect
  init_session : ℕ → Role → List ℕ → Effect
  abort_intents : List ℕ → Effect

pub record Manager : Type 0 where
  pub node_id : ℕ
  pub peers : Map PeerInfo
  pub event_streams : Map (Unit {0})
  pub conn_tasks : Map (ℕ × TaskKind)
  pub next_task : ℕ
  pub shutting_down : Bool
  pub effects : List Effect

unfoldable pub new_manager : ℕ → Manager
new_manager node_id = record {
  node_id = node_id;
  peers = [];
  event_streams = [];
  conn_tasks = [];
  next_task = 0;
  shutting_down = false;
  effects = [];
}

unfoldable pub new_peer : PeerInfo
new_peer = record { pending_intents = []; conn_state = idle; session_state = no_session }

unfoldable pub is_session_none : SessionState → Bool
is_session_none no_session = true
is_session_none active_session = false

unfoldable pub is_conn_none : ConnState → Bool
is_conn_none idle = true
is_conn_none _ = false

unfoldable pub none_left : {A : Type 0} → List A → Bool
none_left [] = true
none_left (_ ∷ _) = false

unfoldable pub emit : Effect → Manager → Manager
emit e m = record m { effects = m.effects ++ e ∷ [] }

unfoldable pub set_peer : ℕ → PeerInfo → Manager → Manager
set_peer peer info m = record m { peers = put peer info m.peers }

unfoldable pub remove_peer : ℕ → Manager → Manager
remove_peer peer m = record m { peers = remove peer m.peers }

-- The number of the new task is the `next_task` before.
unfoldable pub spawn_conn_task : ℕ → TaskKind → Manager → Manager
spawn_conn_task peer kind m = record m {
  conn_tasks = put m.next_task (peer, kind) m.conn_tasks;
  next_task = m.next_task + 1;
}

-- `PeerInfo::push_intent`; `takes` says whether an active session still receives updates. The last
-- part says whether the session took the intent.
unfoldable pub push_intent : ℕ → ℕ → Bool → PeerInfo → Manager → PeerInfo × Manager × Bool
push_intent peer intent takes info m =
    if is_session_none info.session_state
    then (record info { pending_intents = info.pending_intents ++ intent ∷ [] }, m, false)
    else if takes
    then (info, emit (submit_to_session peer intent) m, true)
    else (record info { pending_intents = info.pending_intents ++ intent ∷ [] }, m, false)

unfoldable pub abort_pending_intents : PeerInfo → Manager → PeerInfo × Manager
abort_pending_intents info m =
    (record info { pending_intents = [] }, emit (abort_intents info.pending_intents) m)

unfoldable pub connect_if_inactive : ℕ → Manager → Manager
connect_if_inactive peer m =
    let info = lookup_or new_peer peer m.peers in
    if is_conn_none info.conn_state
    then set_peer peer (record info { conn_state = establishing (some m.next_task) m.next_task })
        (spawn_conn_task peer dial m)
    else set_peer peer info m

unfoldable pub submit_intent : ℕ → ℕ → Bool → Manager → Manager
submit_intent peer intent takes m =
    let (info, m1, sent) = push_intent peer intent takes (lookup_or new_peer peer m.peers) m in
    let m2 = set_peer peer info m1 in if sent then m2 else connect_if_inactive peer m2

-- Whether an incoming connection is accepted in a state, and what is done to it and to our dial.
unfoldable pub accepts : ℕ → ℕ → ConnState → Bool × List Effect
accepts node_id peer idle = (true, [])
accepts node_id peer (establishing none _) = (false, close_connection peer already_accepting ∷ [])
accepts node_id peer (establishing (some token) _) =
    if ltb node_id peer
    then (true, cancel_dial token ∷ [])
    else (false, close_connection peer our_dial_wins ∷ [])
accepts node_id peer (active _) = (false, close_connection peer already_active ∷ [])
accepts node_id peer (terminating _) = (true, [])

-- `init` is the intent of the accept handler; `none` is its refusal.
unfoldable pub handle_connection : ℕ → Option ℕ → Bool → Manager → Manager
handle_connection peer none takes m = m
handle_connection peer (some intent) takes m =
    let info = lookup_or new_peer peer m.peers in
    let (accepted, done_first) = accepts m.node_id peer info.conn_state in
    let m1 = record m { effects = m.effects ++ done_first } in
    if accepted
    then (let (info2, m2, _) = push_intent peer intent takes info m1 in
        set_peer peer (record info2 { conn_state = establishing none m2.next_task })
          (spawn_conn_task peer accept m2))
    else set_peer peer info m1

unfoldable pub complete_peer : ℕ → List ℕ → PeerInfo → Manager → Manager
complete_peer peer remaining info m =
    let info1 = record info {
      pending_intents = info.pending_intents ++ remaining;
      session_state = no_session;
    } in
    if is_conn_none info1.conn_state
    then (if none_left info1.pending_intents
        then remove_peer peer m
        else connect_if_inactive peer (set_peer peer info1 m))
    else set_peer peer info1 m

-- `SessionEvent::Complete` with the intents that remain.
unfoldable pub session_complete : ℕ → List ℕ → Manager → Manager
session_complete peer remaining m =
    let m1 = emit (close_senders peer) m in
    elim (lookup peer m.peers) [ none ↦ m1 | some info ↦ complete_peer peer remaining info m1 ]
