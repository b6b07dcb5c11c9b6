-- ===== src/Store/Events/Tests.antt =====
-- Runs of the event queue, and the theorems on it at concrete inputs.
use iroh_willow.Prelude.{ℕ, ◌+◌, Bool, ◌≡◌, refl, [], ◌∷◌, leb, arith, ◌++◌}
use iroh_willow.Store.Events.{
  EventQueue, ready, empty_queue, insert, get, scan, poll_next, next_progress_id,
}
use iroh_willow.Store.Events.Drain.{drain, drain-eq-keep, drain-insert}

program : Unit {0}
unfolding empty_queue insert get scan poll_next next_progress_id
program = tt

abbrev three : EventQueue ℕ
three = record { events = 5 ∷ 40 ∷ 7 ∷ []; offset = 2; wakers = 9 ∷ [] }

abbrev small : ℕ → Bool
small n = leb n 10

insert_runs :
    insert (λ id. id) three ≡ record { events = 5 ∷ 40 ∷ 7 ∷ 5 ∷ []; offset = 2; wakers = [] }
unfolding program
insert_runs = refl

poll_next_runs : poll_next 3 small 1 three ≡ (ready 5 7, three)
unfolding program
poll_next_runs = refl

drain-eq-keep_example : drain 4 2 small three ≡ 5 ∷ 7 ∷ []
drain-eq-keep_example = drain-eq-keep 4 small three 2 (omega arith) (omega arith)

drain_after_insert : drain 5 3 small (insert (λ id. id + 1) three) ≡ drain 5 3 small three ++ 6 ∷ []
unfolding next_progress_id
drain_after_insert =
    drain-insert 5 small three (λ id. id + 1) 3 (omega arith) (omega arith) (omega arith)
