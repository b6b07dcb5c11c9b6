-- ===== src/Session/Intents/Tests.antt =====
-- Runs of intents at concrete inputs.
use iroh_willow.Prelude.{
  ℕ, ◌+◌, ◌≡◌, refl, Bool, true, false, ◌==◌, Option, none, some, List, [], ◌∷◌, arith,
  if◌then◌else◌,
}
use iroh_willow.Prelude.Map.{lookup_or}
use iroh_willow.Model.Toy.{toy, ToyArea, area_includes, toy_intersection}
use iroh_willow.Session.Error.{Error, Result, ok, err, panicked}
use iroh_willow.Session.Intents.{
  AreaOfInterest, is_live, IntentInfo, no_areas, is_some, extend_interests, extend_all,
  merge_interests, flatten_interests, is_complete, overlaps, matches_area, remaining, put_remaining,
  complete_areas, complete_area_if_matches, match_event, is_reconciled, events_closed, send_on,
  send_all_done, after_send, deliver, handle_event, on_reconciled, reconciled, reconciled_all,
  reconcile_once,
}
use iroh_willow.Session.Intents.Reconciled.{
  after_handled, after_areas, unreconciled, times_all, all_done, reconciled_areas,
}
use iroh_willow.Session.Intents.Completes.{drive_to_completion-after_areas, touched}
use iroh_willow.Session.Intents.Handle.{
  completion, received, progress, drive_to_completion, complete, partial, nothing, send_abort,
  send_update, close_handle,
}
use iroh_willow.Session.Intents.Dispatcher.{
  Intent, Output, IntentDispatcher, new_dispatcher, yield_output, same_aoi, insert_area,
  add_complete, cancel_intent_inner, unless_intents, cancel_intent, handled_info, handled_sent,
  cancel_handled, cancel_all_handled, infos_of, sent_of, handle_all, emit_event_inner, emit_event,
  replay_areas, replay, add_intent, submit_intent, update_intent, end_updates, dispatch,
  submit_pending, dispatch_all, drain_inbox, incomplete_channels, drain_all, abort_channels,
  queued_channels, abort_all, abort_active, emit_input, submit_input, submit_interests,
  all_intents_dropped, inbox,
}

program : Unit {0}
unfolding is_live no_areas is_some extend_interests extend_all merge_interests flatten_interests
    is_complete overlaps matches_area remaining put_remaining complete_areas
    complete_area_if_matches match_event is_reconciled events_closed send_on send_all_done
    after_send deliver handle_event on_reconciled after_handled after_areas unreconciled times_all
    all_done new_dispatcher yield_output same_aoi insert_area add_complete cancel_intent_inner
    unless_intents cancel_intent handled_info handled_sent cancel_handled cancel_all_handled
    infos_of sent_of handle_all emit_event_inner emit_event replay_areas replay add_intent
    submit_intent update_intent end_updates dispatch submit_pending dispatch_all drain_inbox
    incomplete_channels drain_all abort_channels queued_channels abort_all abort_active completion
    received progress drive_to_completion send_abort send_update close_handle
program = tt

abbrev below : List ℕ → AreaOfInterest toy
below path = record { area = record { subspace = 1; path = path }; max_count = 0; max_size = 0 }

abbrev info : IntentInfo toy
info = record {
  interests = (7, below (1 ∷ 2 ∷ []) ∷ below (3 ∷ []) ∷ []) ∷ [];
  mode = reconcile_once;
  event_tx = some 4;
}

abbrev alive : ℕ → Bool
alive tx = false

included_overlaps :
    (a b : ToyArea) → area_includes a b ≡ true → is_some (toy_intersection b a) ≡ true
unfolding is_some
included_overlaps a b e = ground (arith, e)

-- The first area includes one interest, the second the other one.
reconciled_areas_example :
    let (info1, sent) = after_areas alive 7 (below (1 ∷ []) ∷ below [] ∷ []) info in
    (lookup_or [] 7 info1.interests
      ≡ unreconciled (below (1 ∷ []) ∷ below [] ∷ []) (below (1 ∷ 2 ∷ []) ∷ below (3 ∷ []) ∷ []))
    × (times_all sent + all_done info ≡ all_done info1)
reconciled_areas_example =
    reconciled_areas alive 7 4 refl included_overlaps (below (1 ∷ []) ∷ below [] ∷ []) info refl

told_once :
    (after_areas alive 7 (below (1 ∷ []) ∷ below [] ∷ []) info).1
    ≡ (4, reconciled 7 (below (1 ∷ []))) ∷ (4, reconciled 7 (below [])) ∷ (4, reconciled_all) ∷ []
unfolding program
told_once = refl

-- Two areas are reconciled, which include both interests.
completes_example :
    drive_to_completion (received 4 (after_areas alive 7 (below (1 ∷ []) ∷ below [] ∷ []) info).1)
    ≡ ok (
        if no_areas
          (unreconciled (below (1 ∷ []) ∷ below [] ∷ []) (below (1 ∷ 2 ∷ []) ∷ below (3 ∷ []) ∷ []))
        then complete
        else if touched (below (1 ∷ []) ∷ below [] ∷ []) (below (1 ∷ 2 ∷ []) ∷ below (3 ∷ []) ∷ [])
        then partial
        else nothing)
unfolding no_areas
completes_example =
    drive_to_completion-after_areas alive 7 4 refl included_overlaps
      (below (1 ∷ []) ∷ below [] ∷ []) (below (1 ∷ 2 ∷ []) ∷ below (3 ∷ []) ∷ []) info refl refl
      refl

completes_both :
    drive_to_completion (received 4 (after_areas alive 7 (below (1 ∷ []) ∷ below [] ∷ []) info).1)
    ≡ ok complete
unfolding program
completes_both = refl

-- The reconciled area lies in an interest, of which more is left: no interest was reconciled.
part_of_interest :
    let (info1, sent) = after_areas alive 7 (below (3 ∷ 5 ∷ []) ∷ []) info in
    (drive_to_completion (received 4 sent) ≡ ok partial) × (info1.interests ≡ info.interests)
unfolding program
part_of_interest = (refl, refl)

abbrev intent : Intent toy
intent = record {
  interests = some ((7, below (1 ∷ []) ∷ []) ∷ []);
  mode = reconcile_once;
  event_tx = some 4;
  update_rx = none;
}

abbrev outputs_of : Result (IntentDispatcher toy) → List (Output toy)
outputs_of (ok d) = d.outputs
outputs_of (err _) = []
outputs_of panicked = []

abbrev fails_with : Result (IntentDispatcher toy) → Option Error
fails_with (ok d) = none
fails_with (err e) = some e
fails_with panicked = none

-- The interests of an intent are submitted, and it goes with its last area.
intent_ends :
    outputs_of (
      dispatch_all alive
        (inbox (submit_input intent) ∷ inbox (emit_input (reconciled 7 (below []))) ∷ [])
        (new_dispatcher []))
    ≡ submit_interests ((7, below (1 ∷ []) ∷ []) ∷ []) ∷ all_intents_dropped ∷ []
unfolding program
intent_ends = refl

-- The second intent's receiver is gone, and one of its areas was already complete.
dropped_intent_fails :
    fails_with (
      dispatch_all
        (λ tx. tx == 5)
        (inbox (submit_input intent)
          ∷ inbox (emit_input (reconciled 7 (below [])))
          ∷ inbox (submit_input (record intent { event_tx = some 5 }))
          ∷ [])
        (new_dispatcher []))
    ≡ some Error.store
unfolding program
dropped_intent_fails = refl

-- An intent without interests is complete at once: no output says that no intent is left.
empty_intent_silent :
    outputs_of (
      dispatch_all alive
        (inbox (submit_input (record intent { interests = some [] })) ∷ [])
        (new_dispatcher []))
    ≡ []
unfolding program
empty_intent_silent = refl

abort_reaches_handle :
    drive_to_completion (received 4 (send_abort alive Error.shutting_down intent))
    ≡ err Error.shutting_down
unfolding program
abort_reaches_handle = refl
