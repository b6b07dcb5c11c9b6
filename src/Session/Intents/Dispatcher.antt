-- ===== src/Session/Intents/Dispatcher.antt =====
-- `IntentDispatcher` and `RemainingIntents` of src/session/intents.rs. What the store resolves an
-- intent's interests to stands in the intent and in the update: `none` is its error. Outputs and
-- sent events are recorded in order.
use iroh_willow.Prelude.{
  ℕ, ◌+◌, ◌%◌, ◌^◌, ◌==◌, Bool, true, ◌&&◌, Option, none, some, List, [], ◌∷◌, ◌++◌, any,
  if◌then◌else◌,
}
use iroh_willow.Prelude.Map.{Map, lookup, put, remove, lookup_or}
use iroh_willow.Model.{DataModel}
use iroh_willow.Session.Error.{Error, Result, ok, err, panicked}
use iroh_willow.Session.Intents.{
  AreaOfInterest, NamespaceInterests, InterestMap, EventKind, reconciled, abort, SessionMode,
  IntentInfo, Sent, Handled, receiver_dropped, handled, no_areas, is_some, merge_interests,
  flatten_interests, is_complete, events_closed, handle_event, on_reconciled,
}

pub record Intent (m : DataModel) : Type 0 where
  pub interests : Option (InterestMap m)
  pub mode : SessionMode
  pub event_tx : Option ℕ
  pub update_rx : Option ℕ

pub data Input (m : DataModel) : Type 0 where
  emit_input : EventKind m → Input m
  submit_input : Intent m → Input m

pub data IntentUpdate (m : DataModel) : Type 0 where
  add_interests : Option (InterestMap m) → IntentUpdate m
  close_intent : IntentUpdate m

pub data Output (m : DataModel) : Type 0 where
  submit_interests : InterestMap m → Output m
  all_intents_dropped : Output m

pub record RemainingIntents (m : DataModel) : Type 0 where
  pub active_incomplete : List ℕ
  pub queued : List (Intent m)

pub record IntentDispatcher (m : DataModel) : Type 0 where
  pub pending_intents : List (Intent m)
  pub intents : Map (IntentInfo m)
  pub intent_update_rx : Map ℕ
  pub next_intent_id : ℕ
  pub complete_areas : NamespaceInterests m
  pub outputs : List (Output m)
  pub sent : Sent m

-- What wakes the loop: an input, an update of an intent, or the end of an intent's updates.
pub data DispatchTick (m : DataModel) : Type 0 where
  inbox : Input m → DispatchTick m
  update : ℕ → IntentUpdate m → DispatchTick m
  updates_end : ℕ → DispatchTick m

module _ {m : DataModel} where
  unfoldable pub new_dispatcher : List (Intent m) → IntentDispatcher m
  new_dispatcher initial = record {
    pending_intents = initial;
    intents = [];
    intent_update_rx = [];
    next_intent_id = 0;
    complete_areas = [];
    outputs = [];
    sent = [];
  }

  unfoldable pub yield_output : Output m → IntentDispatcher m → IntentDispatcher m
  yield_output o d = record d { outputs = d.outputs ++ o ∷ [] }

  unfoldable pub same_aoi : AreaOfInterest m → AreaOfInterest m → Bool
  same_aoi a b = m.area_eq a.area b.area && (a.max_count == b.max_count && a.max_size == b.max_size)

  -- `HashSet::insert`.
  unfoldable pub insert_area : AreaOfInterest m → List (AreaOfInterest m) → List (AreaOfInterest m)
  insert_area a xs = if any (same_aoi a) xs then xs else xs ++ a ∷ []

  unfoldable pub add_complete : EventKind m → IntentDispatcher m → IntentDispatcher m
  add_complete (reconciled namespace aoi) d = record d {
    complete_areas =
        put namespace (insert_area aoi (lookup_or [] namespace d.complete_areas)) d.complete_areas;
  }
  add_complete _ d = d

  unfoldable pub cancel_intent_inner : ℕ → IntentDispatcher m → IntentDispatcher m
  cancel_intent_inner id d = record d {
    intent_update_rx = remove id d.intent_update_rx;
    intents = remove id d.intents;
  }

  -- The output that no intent is left.
  unfoldable pub unless_intents : IntentDispatcher m → IntentDispatcher m
  unless_intents d = if no_areas d.intents then yield_output all_intents_dropped d else d

  unfoldable pub cancel_intent : ℕ → IntentDispatcher m → IntentDispatcher m
  cancel_intent id d = unless_intents (cancel_intent_inner id d)

  -- The intents after an event: what was sent, and for each what handling it led to.
  unfoldable pub handled_info : Handled m → IntentInfo m
  handled_info (receiver_dropped info _) = info
  handled_info (handled info _ _) = info

  unfoldable pub handled_sent : Handled m → Sent m
  handled_sent (receiver_dropped _ sent) = sent
  handled_sent (handled _ sent _) = sent

  unfoldable pub cancel_handled : ℕ → Handled m → IntentDispatcher m → IntentDispatcher m
  cancel_handled id (receiver_dropped _ _) d =
      if is_some (lookup id d.intent_update_rx) then d else cancel_intent_inner id d
  cancel_handled id (handled _ _ complete) d = if complete then cancel_intent_inner id d else d

  unfoldable pub cancel_all_handled : Map (Handled m) → IntentDispatcher m → IntentDispatcher m
  cancel_all_handled [] d = d
  cancel_all_handled ((id, h) ∷ rest) d = cancel_all_handled rest (cancel_handled id h d)

  unfoldable pub infos_of : Map (Handled m) → Map (IntentInfo m)
  infos_of [] = []
  infos_of ((id, h) ∷ rest) = (id, handled_info h) ∷ infos_of rest

  unfoldable pub sent_of : Map (Handled m) → Sent m
  sent_of [] = []
  sent_of ((id, h) ∷ rest) = handled_sent h ++ sent_of rest

  module _ (dropped : ℕ → Bool) where
    unfoldable pub handle_all : EventKind m → Map (IntentInfo m) → Map (Handled m)
    handle_all event [] = []
    handle_all event ((id, info) ∷ rest) =
        (id, handle_event dropped event info) ∷ handle_all event rest

    unfoldable pub emit_event_inner : EventKind m → IntentDispatcher m → IntentDispatcher m
    emit_event_inner event d =
        let d1 = add_complete event d in
        let hs = handle_all event d1.intents in
        cancel_all_handled hs (record d1 { intents = infos_of hs; sent = d1.sent ++ sent_of hs })

    unfoldable pub emit_event : EventKind m → IntentDispatcher m → IntentDispatcher m
    emit_event event d = unless_intents (emit_event_inner event d)

    -- The areas of a namespace that were complete before the intent came.
    unfoldable pub replay_areas :
        ℕ → List (AreaOfInterest m) → IntentInfo m × Sent m → Option (IntentInfo m × Sent m)
    replay_areas namespace [] (info, sent) = some (info, sent)
    replay_areas namespace (a ∷ areas) (info, sent) =
        elim (on_reconciled dropped namespace a info) [
          | receiver_dropped _ _ ↦ none
          | handled info1 more _ ↦ replay_areas namespace areas (info1, sent ++ more)
        ]

    unfoldable pub replay :
        NamespaceInterests m → IntentInfo m × Sent m → Option (IntentInfo m × Sent m)
    replay [] p = some p
    replay ((namespace, areas) ∷ rest) p = elim (replay_areas namespace areas p) [
      | none ↦ none
      | some q ↦ replay rest q
    ]

    unfoldable pub add_intent :
        Intent m → InterestMap m → IntentInfo m → IntentDispatcher m → IntentDispatcher m
    add_intent intent interests info d =
        let id = d.next_intent_id in
        let d1 = record d { next_intent_id = (id + 1) % 2 ^ 64 } in
        if is_complete info
        then d1
        else yield_output (submit_interests interests) (record d1 {
          intents = put id info d1.intents;
          intent_update_rx = elim intent.update_rx [
            | none ↦ d1.intent_update_rx
            | some rx ↦ put id rx d1.intent_update_rx
          ];
        })

    unfoldable pub submit_intent : Intent m → IntentDispatcher m → Result (IntentDispatcher m)
    submit_intent intent d = elim intent.interests [
      | none ↦ err Error.auth
      | some interests ↦
          let info : IntentInfo m = record {
            interests = flatten_interests interests;
            mode = intent.mode;
            event_tx = intent.event_tx;
          } in
          elim (replay d.complete_areas (info, [])) [
            | none ↦ err Error.store
            | some (info1, more) ↦
                ok (add_intent intent interests info1 (record d { sent = d.sent ++ more }))
          ]
    ]

    -- An error of an update is only reported.
    unfoldable pub update_intent : ℕ → IntentUpdate m → IntentDispatcher m → IntentDispatcher m
    update_intent id (add_interests none) d = d
    update_intent id (add_interests (some added)) d = elim (lookup id d.intents) [
      | none ↦ d
      | some info ↦
          yield_output (submit_interests added)
            (record d { intents = put id (merge_interests added info) d.intents })
    ]
    update_intent id close_intent d = cancel_intent id d

    -- The sender of an intent's updates was dropped.
    unfoldable pub end_updates : ℕ → IntentDispatcher m → IntentDispatcher m
    end_updates id d =
        let d1 = record d { intent_update_rx = remove id d.intent_update_rx } in
        let events_tx_closed : Bool = elim (lookup id d1.intents) [
          | none ↦ true
          | some info ↦ events_closed dropped info
        ] in
        if events_tx_closed then cancel_intent id d1 else d1

    unfoldable pub dispatch : DispatchTick m → IntentDispatcher m → Result (IntentDispatcher m)
    dispatch (inbox (submit_input intent)) d = submit_intent intent d
    dispatch (inbox (emit_input event)) d = ok (emit_event event d)
    dispatch (update id u) d = ok (update_intent id u d)
    dispatch (updates_end id) d = ok (end_updates id d)

    unfoldable pub submit_pending :
        List (Intent m) → IntentDispatcher m → Result (IntentDispatcher m)
    submit_pending [] d = ok d
    submit_pending (intent ∷ rest) d =
        elim (submit_intent intent (record d { pending_intents = rest })) [
          | ok d1 ↦ submit_pending rest d1
          | err e ↦ err e
          | panicked ↦ panicked
        ]

    unfoldable pub dispatch_all :
        List (DispatchTick m) → IntentDispatcher m → Result (IntentDispatcher m)
    dispatch_all [] d = ok d
    dispatch_all (t ∷ ts) d = elim (dispatch t d) [
      | ok d1 ↦ dispatch_all ts d1
      | err e ↦ err e
      | panicked ↦ panicked
    ]

    -- The inbox is emptied; what is queued there comes before what was pending.
    unfoldable pub drain_inbox :
        List (Input m) → IntentDispatcher m → IntentDispatcher m × List (Intent m)
    drain_inbox [] d = (d, [])
    drain_inbox (emit_input event ∷ rest) d = drain_inbox rest (emit_event_inner event d)
    drain_inbox (submit_input intent ∷ rest) d =
        let (d1, queued) = drain_inbox rest d in (d1, intent ∷ queued)

  unfoldable pub incomplete_channels : Map (IntentInfo m) → List ℕ
  incomplete_channels [] = []
  incomplete_channels ((_, info) ∷ rest) =
      let others = incomplete_channels rest in
      if is_complete info
      then others
      else elim info.event_tx [ none ↦ others | some tx ↦ tx ∷ others ]

  unfoldable pub drain_all : (ℕ → Bool) → List (Input m) → IntentDispatcher m → RemainingIntents m
  drain_all dropped inputs d =
      let (d1, queued) = drain_inbox dropped inputs d in
      record {
        active_incomplete = incomplete_channels d1.intents;
        queued = queued ++ d1.pending_intents;
      }

  unfoldable pub abort_channels : Error → List ℕ → Sent m
  abort_channels e [] = []
  abort_channels e (tx ∷ rest) = (tx, abort e) ∷ abort_channels e rest

  unfoldable pub queued_channels : List (Intent m) → List ℕ
  queued_channels [] = []
  queued_channels (intent ∷ rest) =
      let others = queued_channels rest in
      elim intent.event_tx [ none ↦ others | some tx ↦ tx ∷ others ]

  unfoldable pub abort_all : Error → RemainingIntents m → Sent m
  abort_all e r = abort_channels e (queued_channels r.queued ++ r.active_incomplete)

  unfoldable pub abort_active : Error → RemainingIntents m → Sent m × List (Intent m)
  abort_active e r = (abort_channels e r.active_incomplete, r.queued)
