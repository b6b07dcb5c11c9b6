-- ===== src/Store/Memory/Subscribe/Laws.antt =====
-- What a subscription to a namespace of the in-memory store delivers.
use iroh_willow.Prelude.{
  ℕ, zero, suc, ◌+◌, ◌-◌, ◌≤◌, ◌<◌, ◌≡◌, refl, ap, sym, ◌∙◌, inl, inr, Bool, true, false, Option,
  none, some, List, [], ◌∷◌, ◌++◌, keep, any, drop, length, arith, ◌&&◌, not, ◌==◌, if◌then◌else◌,
}
use iroh_willow.Prelude.Map.{put, lookup_or-put_self}
use iroh_willow.Model.{DataModel}
use iroh_willow.Store.Events.{EventQueue, PollEvent, next_progress_id, poll_next}
use iroh_willow.Store.Events.Drain.{from, poll_next-Polled}
use iroh_willow.Store.StoreEvent.{
  EntryOrigin, StoreEvent, local, remote, ingested, pruned, SubscribeParams, matches,
  includes_entry, includes_origin,
}
use iroh_willow.Store.Memory.{NamespaceStore, EntryStore, empty_store, ingest_entry}
use iroh_willow.Store.Memory.Scan.{prunable, refuses}
use iroh_willow.Store.Memory.Ingest.{store_of, own, after_ingest, events_of, ingest_entry-inserted}
use iroh_willow.Store.Memory.Subscribe.{
  EventStream, StreamPoll, item, ended, waiting, subscribe_area, stream_poll, stream_poll_result,
}

drop-append_end : {T : Type 0} (xs ys : List T) → drop (length xs) (xs ++ ys) ≡ ys
drop-append_end [] ys = refl
drop-append_end (x ∷ xs) ys = drop-append_end xs ys

module _ (m : DataModel) where
  abbrev pub wanted : EventStream m → StoreEvent m → Bool
  wanted st = matches m st.namespace st.area st.params

  abbrev Polls : Type 0
  Polls = (StreamPoll m × EventStream m) × Option (EntryStore m)

  abbrev deliver :
      (EventStream m → EntryStore m → List (StoreEvent m)) → Polls → List (StoreEvent m)
  deliver rest polled = elim polled.0.0 [
    | item event ↦ event ∷ elim polled.1 [ none ↦ [] | some t ↦ rest polled.0.1 t ]
    | ended ↦ []
    | waiting ↦ []
  ]

  -- The items of a stream until it waits or ends.
  unfoldable pub stream_drain : ℕ → EventStream m → EntryStore m → List (StoreEvent m)
  stream_drain zero st s = []
  stream_drain (suc fuel) st s = deliver (stream_drain fuel) (stream_poll m 0 st (some s))

  -- What a stream has yet to deliver.
  abbrev pub to_come : EventStream m → EntryStore m → List (StoreEvent m)
  to_come st s = keep (wanted st) (from st.progress_id (store_of st.namespace s).events)

  abbrev with_events : EventStream m → EntryStore m → EventQueue (StoreEvent m) → EntryStore m
  with_events st s q = record {
    stores = put st.namespace (record (store_of st.namespace s) { events = q }) s.stores;
  }

  stream_poll_lem :
      (st : EventStream m) (s : EntryStore m) (r : PollEvent (StoreEvent m))
      (q : EventQueue (StoreEvent m))
      → poll_next st.progress_id (wanted st) 0 (store_of st.namespace s).events ≡ (r, q)
      → stream_poll m 0 st (some s) ≡ (stream_poll_result m r st, some (with_events st s q))
  unfolding stream_poll
  stream_poll_lem st s r q e =
      ap {B = (StreamPoll m × EventStream m) × Option (EntryStore m)}
        (λ p. (stream_poll_result m p.0 st, some (with_events st s p.1))) e

  -- A stream that is polled until it waits delivers exactly the events that its queue holds from
  -- its progress id on and that match the stream, in order.
  stream_drain-to_come :
      (fuel : ℕ) (st : EventStream m) (s : EntryStore m)
      → (store_of st.namespace s).events.offset ≤ st.progress_id
      → length (to_come st s) < fuel
      → stream_drain fuel st s ≡ to_come st s
  unfolding stream_drain stream_poll_result
  stream_drain-to_come zero st s h l = absurd (omega arith)
  stream_drain-to_come (suc fuel) st s h l =
      let queue = (store_of st.namespace s).events in
      elim (poll_next-Polled queue st.progress_id 0 (wanted st) h) [
        | inl (e, nothing) ↦
            ap (deliver (stream_drain fuel)) (stream_poll_lem st s _ _ e) ∙ sym nothing
        | inr (next, event, e, more, ahead) ↦
            let st' = record st { progress_id = next } in
            let s' = with_events st s queue in
            let same : (store_of st.namespace s').events ≡ queue =
              ap (λ t. t.events) (lookup_or-put_self (empty_store m) st.namespace _ s.stores) in
            let ih =
              stream_drain-to_come fuel st' s' (rw same ahead)
                (rw same (omega (arith, ap length more))) in
            ap (deliver (stream_drain fuel)) (stream_poll_lem st s _ _ e)
            ∙ ap (◌∷◌ event) (ih ∙ ap (λ q. keep (wanted st) (from next q)) same)
            ∙ sym more
      ]

-- An entry that came with one session.
abbrev pub comes_from : ℕ → EntryOrigin → Bool
comes_from ignored local = false
comes_from ignored (remote session) = session == ignored

module _ (m : DataModel) (new : m.AuthorisedEntry) (origin : EntryOrigin) where
  from-after_ingest :
      (gone : List m.AuthorisedEntry) (s : NamespaceStore m)
      → from (next_progress_id s.events) (after_ingest m new origin gone s).events
        ≡ events_of m new origin gone (next_progress_id s.events)
  unfolding next_progress_id
  from-after_ingest gone s =
      let evs = s.events.events in
      let end : s.events.offset + length evs - s.events.offset ≡ length evs = omega arith in
      rw end (drop-append_end evs _)

  -- The new entry is in the area, is not ignored for its empty payload, and comes not from the
  -- session that is ignored.
  abbrev pub wants_new : m.Area → SubscribeParams → Bool
  wants_new area params =
      let own_session : Bool = elim params.ignore_remote [
        | none ↦ false
        | some ignored ↦ comes_from ignored origin
      ] in
      m.includes_entry area (m.entry new)
      && not (params.ignore_empty_payloads && m.payload_length (m.entry new) == 0)
      && not own_session

  -- A pruned entry is in the area, and prunings are not left out.
  abbrev pub wants_pruned : m.Area → SubscribeParams → m.AuthorisedEntry → Bool
  wants_pruned area params old =
      not params.ingest_only
      && m.namespace_id (m.entry old) == own m new origin
      && m.includes_entry area (m.entry old)

  -- What a subscriber is told of the ingestion.
  abbrev pub told : m.Area → SubscribeParams → List m.AuthorisedEntry → ℕ → List (StoreEvent m)
  told area params [] id = if wants_new area params then ingested id new origin ∷ [] else []
  told area params (old ∷ _) id =
      let rest = if wants_new area params then ingested (suc id) new origin ∷ [] else [] in
      if wants_pruned area params old
      then pruned id (record { pruned = old; by = new }) ∷ rest
      else rest

  keep-events_of :
      (area : m.Area) (params : SubscribeParams) (gone : List m.AuthorisedEntry) (id : ℕ)
      → keep (matches m (own m new origin) area params) (events_of m new origin gone id)
        ≡ told area params gone id
  unfolding matches includes_entry includes_origin
  keep-events_of area params [] id = ground arith
  keep-events_of area params (old ∷ _) id = ground arith

  offset-after_ingest :
      (gone : List m.AuthorisedEntry) (s : NamespaceStore m)
      → (after_ingest m new origin gone s).events.offset ≡ s.events.offset
  offset-after_ingest gone s = refl

  length-events_of :
      (p : StoreEvent m → Bool) (gone : List m.AuthorisedEntry) (id : ℕ)
      → length (keep p (events_of m new origin gone id)) ≤ 2
  length-events_of p [] id = ground arith
  length-events_of p (old ∷ more) id = ground arith

  -- A subscriber to the namespace of an entry that is then ingested, which no existing entry keeps out
  -- and which prunes at most one, is told by polling, with consecutive progress ids, first of the pruned
  -- entry, if there is one, it is in the area and prunings are not left out, and then of the new entry,
  -- if it is in the area and neither its payload nor its origin is to be ignored; and of nothing else.
  pub subscribe_then_ingest :
      (area : m.Area) (params : SubscribeParams) (s : EntryStore m)
      → any (refuses m (m.entry new)) (store_of (own m new origin) s).entries ≡ false
      → length (keep (prunable m (m.entry new)) (store_of (own m new origin) s).entries) ≤ 1
      → let (st, s') = subscribe_area m (own m new origin) area params s in
        (t : EntryStore m) × (ingest_entry m new origin s' ≡ some (true, t))
        × (stream_drain m 3 st t
            ≡ told area params
                (keep (prunable m (m.entry new)) (store_of (own m new origin) s).entries)
                st.progress_id)
  unfolding subscribe_area
  subscribe_then_ingest area params s h few =
      let before = store_of (own m new origin) s in
      let gone = keep (prunable m (m.entry new)) before.entries in
      let (st, s') = subscribe_area m (own m new origin) area params s in
      let same : store_of (own m new origin) s' ≡ before =
        lookup_or-put_self (empty_store m) (own m new origin) before s.stores in
      let (t, e, here, _) = ingest_entry-inserted m new origin s' (rw same h) (rw same few) in
      let here' : store_of (own m new origin) t ≡ after_ingest m new origin gone before =
        here
        ∙ ap (λ b. after_ingest m new origin (keep (prunable m (m.entry new)) b.entries) b) same in
      let evs : from st.progress_id (store_of (own m new origin) t).events
          ≡ events_of m new origin gone st.progress_id =
        ap (λ b. from st.progress_id b.events) here' ∙ from-after_ingest gone before in
      let offset : (store_of (own m new origin) t).events.offset ≡ before.events.offset =
        ap (λ b. b.events.offset) here' ∙ offset-after_ingest gone before in
      (
        t,
        e,
        stream_drain-to_come m 3 st t (unfold next_progress_id in omega (arith, offset))
              (rw evs (omega (arith, length-events_of (wanted m st) gone st.progress_id)))
            ∙ ap (keep (wanted m st)) evs
            ∙ keep-events_of area params gone st.progress_id,
      )
