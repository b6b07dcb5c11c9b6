-- ===== src/Engine/PeerManager/Conserve.antt =====
-- The loop of `PeerManager::run` and the intents.
use iroh_willow.Prelude.{
  ℕ, ◌+◌, ◌≡◌, List, [], ◌∷◌, ◌++◌, if◌then◌else◌, if_cases, if_both, arith, ◌&&◌, ◌||◌, not, ltb,
  Bool, true, false, Option, none, some, refl, ap, subst,
}
use iroh_willow.Prelude.Map.{Map, lookup, remove, IsDistinct}
use iroh_willow.Session.Error.{OnOk, Result, ok, err, panicked}
use iroh_willow.Engine.PeerManager.{
  PeerInfo, ConnStep, TaskKind, ConnState, accepts, new_peer, SessionState, no_session,
  active_session, establishing, idle, active, terminating, Manager, new_manager, none_left, Effect,
  handle_connection,
}
use iroh_willow.Engine.PeerManager.Output.{
  Tick, submitted, incoming, shutdown, completed, joined, cancelled, crashed, timed_out, Turn,
  goes_on, stops, turn, run, next, join_task, join_result, after_join, output_of,
  handle_conn_output, init_shutdown, shutdown_peers, shutdown_conn, shutdown_session,
}
use iroh_willow.Engine.PeerManager.Count.{count, pending, settled, settles, held, settled-append}
use iroh_willow.Engine.PeerManager.Intents.{accepts_now, held-submit_intent, held-handle_connection}
use iroh_willow.Engine.PeerManager.Outputs.{taken_back, held-session_complete, held-conn_output}
use iroh_willow.Engine.PeerManager.Distinct.{
  Sound, submit_intent-Sound, handle_connection-Sound, session_complete-Sound, conn_output-Sound,
}

unfoldable pub state_of : Turn → Manager
state_of (goes_on m) = m
state_of (stops m) = m

-- How often a turn adds an intent to those that the manager holds.
unfoldable pub given : ℕ → Tick → Manager → ℕ
given x (submitted _ i _) m = if m.shutting_down then 0 else count x (i ∷ [])
given x (incoming k (some i) _) m =
    if m.shutting_down then 0 else if accepts_now k m then count x (i ∷ []) else 0
given x (completed k remaining) m = taken_back x remaining (lookup k m.peers)
given x _ m = 0

unfoldable pub given_after : (Manager → ℕ) → Result Turn → ℕ
given_after f (ok (goes_on m)) = f m
given_after f _ = 0

-- How often the turns of a run add it.
unfoldable pub given_all : ℕ → List Tick → Manager → ℕ
given_all x [] m = 0
given_all x (t ∷ ts) m = given x t m + given_after (given_all x ts) (turn t m)

-- A state that holds an intent as often as it was held and given, with one entry for a peer.
abbrev Keeps : ℕ → ℕ → Manager → Type 0
Keeps x n m = (held x m ≡ n) × IsDistinct m.peers

abbrev KeepsTurn : ℕ → ℕ → Turn → Type 0
KeepsTurn x n r = Keeps x n (state_of r)

settled-shutdown_conn : (x : ℕ) (c : ConnState) → settled x (shutdown_conn c) ≡ 0
unfolding settled shutdown_conn settles
settled-shutdown_conn x idle = refl
settled-shutdown_conn x (establishing _ task) = omega arith
settled-shutdown_conn x (active _) = refl
settled-shutdown_conn x (terminating _) = refl

settled-shutdown_session : (x k : ℕ) (s : SessionState) → settled x (shutdown_session k s) ≡ 0
unfolding settled shutdown_session settles
settled-shutdown_session x k no_session = refl
settled-shutdown_session x k active_session = omega arith

settled-shutdown_peers : (x : ℕ) (peers : Map PeerInfo) → settled x (shutdown_peers peers) ≡ 0
unfolding shutdown_peers settled
settled-shutdown_peers x [] = refl
settled-shutdown_peers x ((k, info) ∷ rest) =
    let session : List Effect = shutdown_session k info.session_state in
    omega (
      arith,
      settled-append x (shutdown_conn info.conn_state) (session ++ shutdown_peers rest),
      settled-append x session (shutdown_peers rest),
      settled-shutdown_conn x info.conn_state,
      settled-shutdown_session x k info.session_state,
      settled-shutdown_peers x rest,
    )

join_result-KeepsTurn :
    (x n : ℕ) (r : Result Manager) → OnOk (Keeps x n) r → OnOk (KeepsTurn x n) (join_result r)
unfolding join_result OnOk after_join state_of
join_result-KeepsTurn x n (ok m) h =
    if_cases (KeepsTurn x n) (m.shutting_down && none_left m.conn_tasks) (λ _. h) (λ _. h)
join_result-KeepsTurn x n (err e) h = tt
join_result-KeepsTurn x n panicked h = tt

OnOk-pair :
    {A : Type 0} (P Q : A → Type 0) (r : Result A) → OnOk P r → OnOk Q r → OnOk (λ a. P a × Q a) r
unfolding OnOk
OnOk-pair P Q (ok a) p q = (p, q)
OnOk-pair P Q (err e) p q = tt
OnOk-pair P Q panicked p q = tt

output_of-Keeps :
    (x k : ℕ) (out : ConnStep) (o : Option PeerInfo) (m : Manager)
    → lookup k m.peers ≡ o
    → Sound m
    → OnOk (Keeps x (held x m)) (output_of k out o m)
unfolding output_of OnOk
output_of-Keeps x k out none m e d = tt
output_of-Keeps x k out (some info) m e d =
    OnOk-pair _ _ _ (held-conn_output x k info m e out d) (conn_output-Sound k info m d out)

join_task-KeepsTurn :
    (x task : ℕ) (out : ConnStep) (o : Option (ℕ × TaskKind)) (m : Manager)
    → Sound m
    → OnOk (KeepsTurn x (held x m)) (join_task task out o m)
unfolding join_task handle_conn_output OnOk state_of held
join_task-KeepsTurn x task out none m d = (refl, d)
join_task-KeepsTurn x task out (some (k, kind)) m d =
    let m1 : Manager = record m { conn_tasks = remove task m.conn_tasks } in
    join_result-KeepsTurn x (held x m1) (output_of k out (lookup k m.peers) m1)
      (output_of-Keeps x k out (lookup k m.peers) m1 refl d)

held-init_shutdown : (x : ℕ) (m : Manager) → held x (init_shutdown m) ≡ held x m
unfolding held init_shutdown
held-init_shutdown x m =
    omega
      (arith, settled-append x m.effects (shutdown_peers m.peers), settled-shutdown_peers x m.peers)

turn-KeepsTurn :
    (x : ℕ) (t : Tick) (m : Manager)
    → Sound m
    → OnOk (KeepsTurn x (held x m + given x t m)) (turn t m)
unfolding turn given OnOk state_of init_shutdown held handle_connection
turn-KeepsTurn x (submitted k i takes) m d =
    if_both (λ m1 n. Keeps x (held x m + n) m1) m.shutting_down (omega arith, d)
      (held-submit_intent x k i takes m, submit_intent-Sound k i takes m d)
turn-KeepsTurn x (incoming k none takes) m d =
    let no_handler : held x (handle_connection k none takes m) ≡ held x m + 0 = omega arith in
    if_cases (Keeps x (held x m + 0)) m.shutting_down (λ _. (omega arith, d)) (λ _. (no_handler, d))
turn-KeepsTurn x (incoming k (some i) takes) m d =
    if_both (λ m1 n. Keeps x (held x m + n) m1) m.shutting_down (omega arith, d)
      (held-handle_connection x k i takes m, handle_connection-Sound k (some i) takes m d)
turn-KeepsTurn x shutdown m d =
    let P : Turn → Type 0 = KeepsTurn x (held x m + 0) in
    if_cases (OnOk P) m.shutting_down (λ _. (omega arith, d))
      (λ _.
        if_cases P (none_left m.conn_tasks) (λ _. (omega (arith, held-init_shutdown x m), d))
          (λ _. (omega (arith, held-init_shutdown x m), d)))
turn-KeepsTurn x (completed k remaining) m d =
    (held-session_complete x k remaining m d, session_complete-Sound k remaining m d)
turn-KeepsTurn x (joined task out) m d =
    subst (λ n. OnOk (KeepsTurn x n) (turn (joined task out) m)) (omega arith)
      (join_task-KeepsTurn x task out (lookup task m.conn_tasks) m d)
turn-KeepsTurn x (cancelled task) m d = (omega arith, d)
turn-KeepsTurn x (crashed task) m d = tt
turn-KeepsTurn x timed_out m d =
    if_cases (KeepsTurn x (held x m + 0)) m.shutting_down (λ _. (omega arith, d))
      (λ _. (omega arith, d))

next-KeepsTurn :
    (x n : ℕ) (f : Manager → Result Turn) (h : Manager → ℕ) (r : Result Turn)
    → OnOk (KeepsTurn x n) r
    → ((m : Manager) → Sound m → OnOk (KeepsTurn x (held x m + h m)) (f m))
    → OnOk (KeepsTurn x (n + given_after h r)) (next f r)
unfolding next OnOk given_after state_of
next-KeepsTurn x n f h (ok (goes_on m)) e rest =
    subst (λ k. OnOk (KeepsTurn x k) (f m)) (ap (λ k. k + h m) e.0) (rest m e.1)
next-KeepsTurn x n f h (ok (stops m)) e rest = (omega (arith, e.0), e.1)
next-KeepsTurn x n f h (err _) e rest = tt
next-KeepsTurn x n f h panicked e rest = tt

pub run-KeepsTurn :
    (x : ℕ) (ts : List Tick) (m : Manager)
    → Sound m
    → OnOk (KeepsTurn x (held x m + given_all x ts m)) (run ts m)
unfolding run given_all OnOk state_of
run-KeepsTurn x [] m d = (omega arith, d)
run-KeepsTurn x (t ∷ ts) m d =
    subst (λ n. OnOk (KeepsTurn x n) (run (t ∷ ts) m)) (omega arith)
      (next-KeepsTurn x (held x m + given x t m) (run ts) (given_all x ts) (turn t m)
        (turn-KeepsTurn x t m d) (run-KeepsTurn x ts))

-- How often a tick hands an intent to the manager, whatever becomes of it: an intent is submitted,
-- the accept handler makes one for an incoming connection, a session hands back what remains.
unfoldable pub handed : ℕ → Tick → ℕ
handed x (submitted _ i _) = count x (i ∷ [])
handed x (incoming _ (some i) _) = count x (i ∷ [])
handed x (completed _ remaining) = count x remaining
handed x _ = 0

-- Whether an incoming connection of a peer is refused: one is established already, we accept another
-- one, or we dial and our id is not the smaller one.
unfoldable pub refuses_in : ℕ → ℕ → ConnState → Bool
refuses_in self k idle = false
refuses_in self k (establishing none _) = true
refuses_in self k (establishing (some _) _) = not (ltb self k)
refuses_in self k (active _) = true
refuses_in self k (terminating _) = false

unfoldable pub refuses_peer : ℕ → ℕ → Option PeerInfo → Bool
refuses_peer self k none = false
refuses_peer self k (some info) = refuses_in self k info.conn_state

-- How often a tick hands an intent to the manager that is lost: it comes in a shutdown, with a
-- connection that is refused, or back from the session of an unknown peer.
unfoldable pub lost : ℕ → Tick → Manager → ℕ
lost x (submitted _ i _) m = if m.shutting_down then count x (i ∷ []) else 0
lost x (incoming k (some i) _) m =
    if m.shutting_down || refuses_peer m.node_id k (lookup k m.peers) then count x (i ∷ []) else 0
lost x (completed k remaining) m = elim (lookup k m.peers) [ none ↦ count x remaining | some _ ↦ 0 ]
lost x _ m = 0

-- The same for the ticks of a run until it ends.
unfoldable pub handed_all : ℕ → List Tick → Manager → ℕ
handed_all x [] m = 0
handed_all x (t ∷ ts) m = handed x t + given_after (handed_all x ts) (turn t m)

unfoldable pub lost_all : ℕ → List Tick → Manager → ℕ
lost_all x [] m = 0
lost_all x (t ∷ ts) m = lost x t m + given_after (lost_all x ts) (turn t m)

accepts-refuses_in : (self k : ℕ) (c : ConnState) → (accepts self k c).0 ≡ not (refuses_in self k c)
unfolding accepts refuses_in
accepts-refuses_in self k idle = refl
accepts-refuses_in self k (establishing none _) = refl
accepts-refuses_in self k (establishing (some _) _) = ground arith
accepts-refuses_in self k (active _) = refl
accepts-refuses_in self k (terminating _) = refl

accepts-refuses_peer :
    (self k : ℕ) (o : Option PeerInfo)
    → (accepts self k (elim o as (λ _. PeerInfo) [ none ↦ new_peer | some v ↦ v ]).conn_state).0
      ≡ not (refuses_peer self k o)
unfolding accepts refuses_peer new_peer
accepts-refuses_peer self k none = refl
accepts-refuses_peer self k (some info) = accepts-refuses_in self k info.conn_state

accepts_now-refuses_peer :
    (k : ℕ) (m : Manager) → accepts_now k m ≡ not (refuses_peer m.node_id k (lookup k m.peers))
unfolding accepts_now
accepts_now-refuses_peer k m = accepts-refuses_peer m.node_id k (lookup k m.peers)

taken_back-lost :
    (n : ℕ) (x : ℕ) (remaining : List ℕ) (o : Option PeerInfo)
    → n ≡ count x remaining
    → taken_back x remaining o + (elim o as (λ _. ℕ) [ none ↦ n | some _ ↦ 0 ]) ≡ n
unfolding taken_back
taken_back-lost n x remaining none e = omega arith
taken_back-lost n x remaining (some _) e = omega (arith, e)

given-handed : (x : ℕ) (t : Tick) (m : Manager) → given x t m + lost x t m ≡ handed x t
unfolding given lost handed taken_back
given-handed x (submitted _ i _) m = ground arith
given-handed x (incoming k none _) m = omega arith
given-handed x (incoming k (some i) _) m = ground (arith, accepts_now-refuses_peer k m)
given-handed x (completed k remaining) m =
    taken_back-lost (count x remaining) x remaining (lookup k m.peers) refl
given-handed x shutdown m = omega arith
given-handed x (joined _ _) m = omega arith
given-handed x (cancelled _) m = omega arith
given-handed x (crashed _) m = omega arith
given-handed x timed_out m = omega arith

given_after-add :
    (f g h : Manager → ℕ) (r : Result Turn)
    → ((m : Manager) → f m + g m ≡ h m)
    → given_after f r + given_after g r ≡ given_after h r
unfolding given_after
given_after-add f g h (ok (goes_on m)) e = e m
given_after-add f g h (ok (stops m)) e = omega arith
given_after-add f g h (err _) e = omega arith
given_after-add f g h panicked e = omega arith

given_all-handed_all :
    (x : ℕ) (ts : List Tick) (m : Manager) → given_all x ts m + lost_all x ts m ≡ handed_all x ts m
unfolding given_all lost_all handed_all
given_all-handed_all x [] m = omega arith
given_all-handed_all x (t ∷ ts) m = omega (
  arith,
  given-handed x t m,
  given_after-add (given_all x ts) (lost_all x ts) (handed_all x ts) (turn t m)
      (given_all-handed_all x ts),
)

OnOk-map :
    {A : Type 0} (P Q : A → Type 0) (r : Result A) → ((a : A) → P a → Q a) → OnOk P r → OnOk Q r
unfolding OnOk
OnOk-map P Q (ok a) f p = f a p
OnOk-map P Q (err _) f p = tt
OnOk-map P Q panicked f p = tt

-- After any sequence of ticks that a new manager handles without an error or a panic, an intent is
-- pending at a peer, was handed on to a session or aborted, or was lost, together exactly as often as
-- the ticks until the end of the loop handed it to the manager; and every peer has at most one entry.
-- It is lost if it comes in a shutdown, with an incoming connection that is refused, or back from the
-- session of an unknown peer.
pub run_keeps_intents :
    (self x : ℕ) (ts : List Tick)
    → OnOk
        (λ r.
          (held x (state_of r) + lost_all x ts (new_manager self)
            ≡ handed_all x ts (new_manager self))
          × IsDistinct (state_of r).peers)
        (run ts (new_manager self))
unfolding new_manager held pending settled
run_keeps_intents self x ts =
    let m0 = new_manager self in
    let all = given_all-handed_all x ts m0 in
    OnOk-map (KeepsTurn x (held x m0 + given_all x ts m0)) _ (run ts m0)
      (λ r (same, distinct). (omega (arith, same, all), distinct)) (run-KeepsTurn x ts m0 tt)
