-- ===== src/Session/Intents/Handle.antt =====
-- `IntentHandle` of src/session/intents.rs: what driving an intent to its end gives. The events are
-- those that were sent to the handle until the last sender was dropped, in order. An update is queued
-- unless the session dropped the receiver.
use iroh_willow.Prelude.{
  ℕ, ◌==◌, Bool, true, false, Option, none, some, List, [], ◌∷◌, ◌++◌, if◌then◌else◌,
}
use iroh_willow.Prelude.Map.{Map, put, lookup_or}
use iroh_willow.Model.{DataModel}
use iroh_willow.Session.Error.{Error, Result, ok, err}
use iroh_willow.Session.Intents.{
  EventKind, capability_intersection, interest_intersection, reconciled, reconciled_all, abort,
  Sent, InterestMap, SessionMode,
}
use iroh_willow.Session.Intents.Dispatcher.{Intent, IntentUpdate, add_interests, close_intent}

pub data Completion : Type 0 where
  complete partial nothing : Completion

unfoldable pub completion : Bool → Bool → Completion
completion is_complete is_partial =
    if is_complete then complete else if is_partial then partial else nothing

module _ {m : DataModel} where
  -- The events that were sent on one channel.
  unfoldable pub received : ℕ → Sent m → List (EventKind m)
  received tx [] = []
  received tx ((c, event) ∷ sent) =
      let rest = received tx sent in if c == tx then event ∷ rest else rest

  -- The loop of `complete`, with its two flags.
  unfoldable pub progress : Bool → Bool → List (EventKind m) → Result Completion
  progress is_complete is_partial [] = ok (completion is_complete is_partial)
  progress is_complete is_partial (reconciled_all ∷ events) = progress true is_partial events
  progress is_complete is_partial (reconciled _ _ ∷ events) = progress is_complete true events
  progress is_complete is_partial (abort error ∷ events) = err error
  progress is_complete is_partial (capability_intersection _ _ ∷ events) =
      progress is_complete is_partial events
  progress is_complete is_partial (interest_intersection _ _ ∷ events) =
      progress is_complete is_partial events

  unfoldable pub drive_to_completion : List (EventKind m) → Result Completion
  drive_to_completion events = progress false false events

  unfoldable pub send_update :
      (ℕ → Bool)
      → ℕ
      → IntentUpdate m
      → Map (List (IntentUpdate m))
      → Option (Map (List (IntentUpdate m)))
  send_update dropped tx update queues =
      if dropped tx then none else some (put tx (lookup_or [] tx queues ++ update ∷ []) queues)

  -- `IntentHandle::add_interests`, which reports a dropped receiver.
  unfoldable pub add_interests_to :
      (ℕ → Bool)
      → ℕ
      → Option (InterestMap m)
      → Map (List (IntentUpdate m))
      → Option (Map (List (IntentUpdate m)))
  add_interests_to dropped tx interests queues =
      send_update dropped tx (add_interests interests) queues

  -- `IntentHandle::close`, which does not.
  unfoldable pub close_handle :
      (ℕ → Bool) → ℕ → Map (List (IntentUpdate m)) → Map (List (IntentUpdate m))
  close_handle dropped tx queues = elim (send_update dropped tx close_intent queues) [
    | none ↦ queues
    | some queues1 ↦ queues1
  ]

  -- A detached intent is told nothing, a handle that was dropped neither.
  unfoldable pub send_abort : (ℕ → Bool) → Error → Intent m → Sent m
  send_abort dropped error intent = elim intent.event_tx [
    | none ↦ []
    | some tx ↦ if dropped tx then [] else (tx, abort error) ∷ []
  ]

  unfoldable pub new_detached : Option (InterestMap m) → SessionMode → Intent m
  new_detached interests mode = record {
    interests = interests;
    mode = mode;
    event_tx = none;
    update_rx = none;
  }
