-- ===== src/Engine/PeerManager/Shutdown.antt =====
-- How the loop of `PeerManager::run` ends.
use iroh_willow.Prelude.{
  ℕ, ◌≡◌, refl, ap, fun_ext, sym, ◌∙◌, List, [], ◌∷◌, ◌++◌, if◌then◌else◌, if_cases, arith, Bool,
  true, ◌&&◌, Option, none, some, ==_refl,
}
use iroh_willow.Prelude.Map.{Map, lookup, remove, IsDistinct}
use iroh_willow.Session.Error.{OnOk, Result, ok, err, panicked}
use iroh_willow.Engine.PeerManager.{TaskKind, Manager, none_left, ConnStep}
use iroh_willow.Engine.PeerManager.Output.{
  Tick, submitted, incoming, shutdown, completed, joined, cancelled, crashed, timed_out, Turn,
  goes_on, stops, turn, run, next, join_task, join_result, after_join, handle_conn_output,
  init_shutdown,
}

-- The loop is left only in a shutdown, and with no connection task.
unfoldable pub EndsIdle : Turn → Type 0
EndsIdle (goes_on _) = Unit
EndsIdle (stops m) = (m.shutting_down ≡ true) × (m.conn_tasks ≡ [])

none_left_nil : {A : Type 0} (xs : List A) → none_left xs ≡ true → xs ≡ []
unfolding none_left
none_left_nil [] e = refl
none_left_nil (x ∷ xs) e = ground arith

and_left : (a b : Bool) → (a && b) ≡ true → a ≡ true
and_left a b e = ground arith

and_right : (a b : Bool) → (a && b) ≡ true → b ≡ true
and_right a b e = ground arith

join_result-EndsIdle : (r : Result Manager) → OnOk EndsIdle (join_result r)
unfolding join_result after_join OnOk EndsIdle
join_result-EndsIdle (ok m) =
    if_cases EndsIdle (m.shutting_down && none_left m.conn_tasks)
      (λ e. (
        and_left m.shutting_down (none_left m.conn_tasks) e,
        none_left_nil m.conn_tasks (and_right m.shutting_down (none_left m.conn_tasks) e),
      ))
      (λ _. tt)
join_result-EndsIdle (err e) = tt
join_result-EndsIdle panicked = tt

join_task-EndsIdle :
    (task : ℕ) (out : ConnStep) (o : Option (ℕ × TaskKind)) (m : Manager)
    → OnOk EndsIdle (join_task task out o m)
unfolding join_task OnOk EndsIdle
join_task-EndsIdle task out none m = tt
join_task-EndsIdle task out (some (k, kind)) m =
    join_result-EndsIdle
      (handle_conn_output k out (record m { conn_tasks = remove task m.conn_tasks }))

-- A turn that ends the loop without an error or a panic leaves the manager shutting down and without a
-- connection task.
pub turn-EndsIdle : (t : Tick) (m : Manager) → OnOk EndsIdle (turn t m)
unfolding turn OnOk EndsIdle init_shutdown
turn-EndsIdle (submitted _ _ _) m = tt
turn-EndsIdle (incoming _ _ _) m = tt
turn-EndsIdle shutdown m =
    if_cases (OnOk EndsIdle) m.shutting_down (λ _. tt)
      (λ _.
        if_cases EndsIdle (none_left m.conn_tasks) (λ e. (refl, none_left_nil m.conn_tasks e))
          (λ _. tt))
turn-EndsIdle (completed _ _) m = tt
turn-EndsIdle (joined task out) m = join_task-EndsIdle task out (lookup task m.conn_tasks) m
turn-EndsIdle (cancelled _) m = tt
turn-EndsIdle (crashed _) m = tt
turn-EndsIdle timed_out m = if_cases EndsIdle m.shutting_down (λ e. (e, refl)) (λ _. tt)

-- The tasks of a set are aborted, one after the other.
unfoldable pub all_cancelled : Map (ℕ × TaskKind) → List Tick
all_cancelled [] = []
all_cancelled ((k, _) ∷ tasks) = cancelled k ∷ all_cancelled tasks

remove_absent :
    (k : ℕ) (tasks : Map (ℕ × TaskKind)) → lookup k tasks ≡ none → remove k tasks ≡ tasks
remove_absent k [] e = refl
remove_absent k ((j, v) ∷ tasks) e = ground (arith, remove_absent k tasks)

remove_head :
    (k : ℕ) (v : ℕ × TaskKind) (tasks : Map (ℕ × TaskKind))
    → lookup k tasks ≡ none
    → remove k ((k, v) ∷ tasks) ≡ tasks
remove_head k v tasks e = rw (==_refl k) (remove_absent k tasks e)

run-all_cancelled :
    (tasks : Map (ℕ × TaskKind)) (m : Manager)
    → IsDistinct tasks
    → run (all_cancelled tasks) (record m { conn_tasks = tasks })
      ≡ ok (goes_on (record m { conn_tasks = [] }))
unfolding run all_cancelled turn next
run-all_cancelled [] m d = refl
run-all_cancelled ((k, v) ∷ tasks) m d =
    ap (λ ts. run (all_cancelled tasks) (record m { conn_tasks = ts })) (remove_head k v tasks d.0)
    ∙ run-all_cancelled tasks m d.1

next-run :
    (f g : Manager → Result Turn) (r : Result Turn) → next g (next f r) ≡ next (λ m. next g (f m)) r
unfolding next
next-run f g (ok (goes_on m)) = refl
next-run f g (ok (stops m)) = refl
next-run f g (err e) = refl
next-run f g panicked = refl

next-ext :
    (f g : Manager → Result Turn) (r : Result Turn)
    → ((m : Manager) → f m ≡ g m)
    → next f r ≡ next g r
next-ext f g r e = ap (λ h. next h r) (fun_ext e)

run-append : (ts us : List Tick) (m : Manager) → run (ts ++ us) m ≡ next (run us) (run ts m)
unfolding run next
run-append [] us m = refl
run-append (t ∷ ts) us m =
    next-ext (run (ts ++ us)) (λ m1. next (run us) (run ts m1)) (turn t m) (run-append ts us)
    ∙ sym (next-run (run ts) (run us) (turn t m))

timed_out_stops :
    (m : Manager)
    → m.shutting_down ≡ true
    → next (run (timed_out ∷ [])) (ok (goes_on (record m { conn_tasks = [] })))
      ≡ ok (stops (record m { conn_tasks = [] }))
unfolding next run turn
timed_out_stops m e = rw (e) refl

-- When the tasks that remain in a shutdown are all aborted, the loop goes on without any task until
-- the time limit ends it, although a task that finishes last would have ended it at once.
pub aborted_shutdown_waits :
    (m : Manager)
    → m.shutting_down ≡ true
    → IsDistinct m.conn_tasks
    → (run (all_cancelled m.conn_tasks) m ≡ ok (goes_on (record m { conn_tasks = [] })))
      × (run (all_cancelled m.conn_tasks ++ timed_out ∷ []) m
          ≡ ok (stops (record m { conn_tasks = [] })))
      × (after_join (record m { conn_tasks = [] }) ≡ stops (record m { conn_tasks = [] }))
unfolding after_join none_left
aborted_shutdown_waits m e d =
    let waits : run (all_cancelled m.conn_tasks) m ≡ ok (goes_on (record m { conn_tasks = [] })) =
      run-all_cancelled m.conn_tasks m d in
    (
      waits,
      run-append (all_cancelled m.conn_tasks) (timed_out ∷ []) m
          ∙ ap (next (run (timed_out ∷ []))) waits
          ∙ timed_out_stops m e,
      ap
          (λ b.
            if b && true
            then stops (record m { conn_tasks = [] })
            else goes_on (record m { conn_tasks = [] }))
          e,
    )
