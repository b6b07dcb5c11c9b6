-- ===== src/Store/Events.antt =====
-- `EventQueue` of src/store/memory.rs: events are pushed and get a progress id, and are polled
-- from a progress id on with a filter. A waker is a number; the wakers that a call wakes are not
-- modelled beyond the queue losing them.
pub mod Drain
mod Tests
use iroh_willow.Prelude.{
  ℕ, zero, suc, ◌+◌, ◌-◌, ◌<◌, Bool, Option, none, some, List, [], ◌∷◌, ◌++◌, ltb, length,
  get_elem?, if◌then◌else◌,
}

-- The oldest event stands first.
pub record EventQueue (T : Type 0) : Type 0 where
  pub events : List T
  pub offset : ℕ
  pub wakers : List ℕ

-- `Poll<Option<(u64, T)>>`.
pub data PollEvent (T : Type 0) : Type 0 where
  ready : ℕ → T → PollEvent T
  closed : PollEvent T
  pending : PollEvent T

module _ {T : Type 0} where
  unfoldable pub empty_queue : EventQueue T
  empty_queue = record { events = []; offset = 0; wakers = [] }

  unfoldable pub next_progress_id : EventQueue T → ℕ
  next_progress_id q = q.offset + length q.events

  -- The event is built from the progress id that it gets; every waker is woken and forgotten.
  unfoldable pub insert : (ℕ → T) → EventQueue T → EventQueue T
  insert f q = record q { events = q.events ++ f (next_progress_id q) ∷ []; wakers = [] }

  -- `checked_sub` fails below the offset.
  unfoldable pub get : ℕ → EventQueue T → Option T
  get id q = if ltb id q.offset then none else get_elem? q.events (id - q.offset)

  -- The loop of `poll_next`; the fuel is the number of rounds that may still follow.
  unfoldable pub scan : ℕ → ℕ → (T → Bool) → EventQueue T → PollEvent T
  scan zero i filter q = pending
  scan (suc fuel) i filter q = elim (get i q) [
    | none ↦ pending
    | some event ↦ if filter event then ready (suc i) event else scan fuel (suc i) filter q
  ]

  -- Every round reads one event, so one round more than there are events is enough.
  unfoldable pub poll_next : ℕ → (T → Bool) → ℕ → EventQueue T → PollEvent T × EventQueue T
  poll_next id filter waker q =
      if ltb id q.offset then (closed, q) else elim (scan (suc (length q.events)) id filter q) [
        | pending ↦ (pending, record q { wakers = q.wakers ++ waker ∷ [] })
        | closed ↦ (closed, q)
        | ready next event ↦ (ready next event, q)
      ]
