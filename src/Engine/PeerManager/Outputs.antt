-- ===== src/Engine/PeerManager/Outputs.antt =====
-- No end of a session and no output of a task loses or doubles an intent.
use iroh_willow.Prelude.{
  ℕ, ◌+◌, ◌≡◌, refl, ap, ◌∙◌, List, [], ◌∷◌, ◌++◌, if_cases, arith, Bool, true, false, Option, none,
  some, Option-cases, not, inl, inr,
}
use iroh_willow.Prelude.Map.{lookup, IsDistinct}
use iroh_willow.Session.Challenge.{Role}
use iroh_willow.Session.Error.{Result, OnOk}
use iroh_willow.Engine.PeerManager.{
  PeerInfo, ConnState, no_session, active_session, Manager, ConnStep, establish_failed, established,
  done, closed, new_peer, emit, set_peer, remove_peer, spawn_conn_task, establishing, is_conn_none,
  is_session_none, abort_pending_intents, abort_intents, session_complete, complete_peer, none_left,
  close_senders, idle, active, terminating, close_connection, closed_for_shutdown, init_session,
  abort_session, ConnFailure, locally_closed, duplicate_conn, other_failure,
}
use iroh_willow.Engine.PeerManager.Output.{
  on_establish_failed, on_established, on_done, on_closed, closed_now, when_closed, when_active,
  conn_output,
}
use iroh_willow.Engine.PeerManager.Count.{
  count, settles, held, waiting, count-append, held-set_peer, held-remove_peer, held-emit,
}
use iroh_willow.Engine.PeerManager.Intents.{held-connect_if_inactive}

module _ (x k : ℕ) (info : PeerInfo) (m : Manager) (here : lookup k m.peers ≡ some info) where
  pub waiting_here : waiting x k m.peers ≡ count x info.pending_intents
  unfolding waiting
  waiting_here =
      ap (λ o. count x (elim o as (λ _. PeerInfo) [ none ↦ new_peer | some v ↦ v ]).pending_intents)
        here

  held-set_here :
      (i : PeerInfo)
      → held x (set_peer k i m) + count x info.pending_intents
        ≡ held x m + count x i.pending_intents
  held-set_here i = omega (arith, held-set_peer x k i m, waiting_here)

  held-remove_here :
      IsDistinct m.peers → held x (remove_peer k m) + count x info.pending_intents ≡ held x m
  held-remove_here d = omega (arith, held-remove_peer x k m d, waiting_here)

count_nil : (x : ℕ) (xs : List ℕ) → none_left xs ≡ true → count x xs ≡ 0
unfolding none_left count
count_nil x [] e = refl
count_nil x (y ∷ ys) e = ground arith

held-complete_peer :
    (x k : ℕ) (remaining : List ℕ) (info : PeerInfo) (m : Manager)
    → lookup k m.peers ≡ some info
    → IsDistinct m.peers
    → held x (complete_peer k remaining info m) ≡ held x m + count x remaining
unfolding complete_peer
held-complete_peer x k remaining info m here d =
    let all : List ℕ = info.pending_intents ++ remaining in
    let info1 : PeerInfo = record info { pending_intents = all; session_state = no_session } in
    let m1 : Manager = set_peer k info1 m in
    let P : Manager → Type 0 = λ m2. held x m2 ≡ held x m + count x remaining in
    let put_back : P m1 =
      omega (
        arith,
        held-set_here x k info m here info1,
        count-append x info.pending_intents remaining,
      ) in
    if_cases P (is_conn_none info.conn_state)
      (λ _.
        if_cases P (none_left all)
          (λ e. omega (
            arith,
            held-remove_here x k info m here d,
            count_nil x all e,
            count-append x info.pending_intents remaining,
          ))
          (λ _. held-connect_if_inactive x k m1 ∙ put_back))
      (λ _. put_back)

-- The intents that a session hands back to a manager.
unfoldable pub taken_back : ℕ → List ℕ → Option PeerInfo → ℕ
taken_back x remaining none = 0
taken_back x remaining (some _) = count x remaining

pub held-session_complete :
    (x k : ℕ) (remaining : List ℕ) (m : Manager)
    → IsDistinct m.peers
    → held x (session_complete k remaining m) ≡ held x m + taken_back x remaining (lookup k m.peers)
unfolding session_complete taken_back settles emit
held-session_complete x k remaining m d = elim (Option-cases (lookup k m.peers)) [
  | inl e ↦ rw (e, session_complete) (omega (arith, held-emit x (close_senders k) m))
  | inr (info, e) ↦
      rw (e, session_complete)
        (omega (
          arith,
          held-complete_peer x k remaining info (emit (close_senders k) m) e d,
          held-emit x (close_senders k) m,
        ))
]

module _ {κ} (P : Manager → Type κ) where
  pub OnOk-when_closed :
      (c : ConnState) (after m : Manager) → P after → P m → OnOk P (when_closed c after m)
  unfolding when_closed OnOk
  OnOk-when_closed (terminating _) after m ha h = ha
  OnOk-when_closed (establishing _ _) after m ha h = h
  OnOk-when_closed (active _) after m ha h = h
  OnOk-when_closed idle after m ha h = tt

  pub OnOk-when_active : (c : ConnState) (r : Result Manager) → OnOk P r → OnOk P (when_active c r)
  unfolding when_active OnOk
  OnOk-when_active (active _) r h = h
  OnOk-when_active idle r h = tt
  OnOk-when_active (establishing _ _) r h = tt
  OnOk-when_active (terminating _) r h = tt

not-false : (b : Bool) → not b ≡ false → b ≡ true
not-false true e = refl
not-false false e = ground arith

module _ (x k : ℕ) (info : PeerInfo) (m : Manager) (here : lookup k m.peers ≡ some info) where
  held-replace :
      (i : PeerInfo) → i.pending_intents ≡ info.pending_intents → held x (set_peer k i m) ≡ held x m
  held-replace i e = omega (arith, held-set_here x k info m here i, ap (count x) e)

  held-on_establish_failed :
      (failure : ConnFailure)
      → IsDistinct m.peers
      → held x (on_establish_failed k failure info m) ≡ held x m
  unfolding on_establish_failed abort_pending_intents emit settles
  held-on_establish_failed locally_closed d = refl
  held-on_establish_failed duplicate_conn d =
      ground (arith, held-replace (record info { conn_state = idle }) refl)
  held-on_establish_failed other_failure d =
      if_cases (λ m1. held x m1 ≡ held x m) (is_session_none info.session_state)
        (λ _. omega (
          arith,
          held-remove_here x k info (emit (abort_intents info.pending_intents) m) here d,
          held-emit x (abort_intents info.pending_intents) m,
        ))
        (λ _. held-replace (record info { conn_state = idle }) refl)

  held-closed_now :
      (graceful : Bool) → IsDistinct m.peers → held x (closed_now k graceful info m) ≡ held x m
  unfolding closed_now abort_pending_intents emit settles count
  held-closed_now graceful d =
      let P : Manager → Type 0 = λ m1. held x m1 ≡ held x m in
      let info1 : PeerInfo = record info { conn_state = idle } in
      let put_back : P (set_peer k info1 m) = held-replace info1 refl in
      let aborted : Manager = emit (abort_intents info.pending_intents) m in
      let given_back : P (set_peer k (record info1 { pending_intents = [] }) aborted) = omega (
        arith,
        held-set_here x k info aborted here (record info1 { pending_intents = [] }),
        held-emit x (abort_intents info.pending_intents) m,
      ) in
      if_cases P (not (none_left info.pending_intents))
        (λ _.
          if_cases P graceful (λ _. held-connect_if_inactive x k (set_peer k info1 m) ∙ put_back)
            (λ _. given_back))
        (λ e.
          if_cases P (is_session_none info.session_state)
            (λ _. omega (
              arith,
              held-remove_here x k info m here d,
              count_nil x info.pending_intents (not-false (none_left info.pending_intents) e),
            ))
            (λ _. put_back))

  held-on_closed :
      (graceful : Bool)
      → IsDistinct m.peers
      → OnOk (λ m1. held x m1 ≡ held x m) (on_closed k graceful info m)
  unfolding on_closed
  held-on_closed graceful d =
      OnOk-when_closed (λ m1. held x m1 ≡ held x m) info.conn_state (closed_now k graceful info m) m
        (held-closed_now graceful d) refl

  held-on_done :
      (graceful : Bool)
      → IsDistinct m.peers
      → OnOk (λ m1. held x m1 ≡ held x m) (on_done k graceful info m)
  unfolding on_done abort_pending_intents emit settles OnOk held spawn_conn_task set_peer
  held-on_done true d =
      let P : Manager → Type 0 = λ m1. held x m1 ≡ held x m in
      OnOk-when_active P info.conn_state _ (
        if_cases (OnOk P) (is_session_none info.session_state)
          (λ _. held-replace (record info { conn_state = terminating m.next_task }) refl) (λ _. tt))
  held-on_done false d =
      let P : Manager → Type 0 = λ m1. held x m1 ≡ held x m in
      OnOk-when_active P info.conn_state _ (
        if_cases (OnOk P) (is_session_none info.session_state)
          (λ _. omega (
            arith,
            held-remove_here x k info (emit (abort_intents info.pending_intents) m) here d,
            held-emit x (abort_intents info.pending_intents) m,
          ))
          (λ _. omega (
            arith,
            held-set_here x k info (emit (abort_session k) m) here
                (record info { conn_state = idle }),
            held-emit x (abort_session k) m,
          )))

  held-on_established :
      (role : Role) (starts : Bool)
      → IsDistinct m.peers
      → OnOk (λ m1. held x m1 ≡ held x m) (on_established k role starts info m)
  unfolding on_established emit settles OnOk held spawn_conn_task set_peer count
  held-on_established role starts d =
      let P : Manager → Type 0 = λ m1. held x m1 ≡ held x m in
      let xs : List ℕ = info.pending_intents in
      let taken : PeerInfo = record info { pending_intents = [] } in
      let closing : Manager = emit (close_connection k closed_for_shutdown) (set_peer k taken m) in
      if_cases (OnOk P) (not (is_session_none info.session_state)) (λ _. tt)
        (λ _.
          if_cases (OnOk P) m.shutting_down
            (λ _.
              if_cases P (none_left xs)
                (λ e. omega (
                  arith,
                  held-set_here x k info m here taken,
                  count_nil x xs e,
                  held-emit x (close_connection k closed_for_shutdown) (set_peer k taken m),
                ))
                (λ _. omega (
                  arith,
                  held-set_here x k info m here taken,
                  held-emit x (close_connection k closed_for_shutdown) (set_peer k taken m),
                  held-emit x (abort_intents xs) closing,
                )))
            (λ _.
              if_cases (OnOk P) starts
                (λ _. omega (
                  arith,
                  held-set_here x k info (emit (init_session k role xs) m) here (record taken {
                    conn_state = active m.next_task;
                    session_state = active_session;
                  }),
                  held-emit x (init_session k role xs) m,
                ))
                (λ _. tt)))

  pub held-conn_output :
      (out : ConnStep)
      → IsDistinct m.peers
      → OnOk (λ m1. held x m1 ≡ held x m) (conn_output k out info m)
  unfolding conn_output OnOk
  held-conn_output (establish_failed failure) d = held-on_establish_failed failure d
  held-conn_output (established role starts) d = held-on_established role starts d
  held-conn_output (done graceful) d = held-on_done graceful d
  held-conn_output (closed graceful) d = held-on_closed graceful d
