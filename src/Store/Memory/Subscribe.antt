-- ===== src/Store/Memory/Subscribe.antt =====
-- `subscribe_area`, `resume_subscription` and `EventStream::poll_next` of src/store/memory.rs.
-- A stream holds a weak pointer to its store; `none` is a store that was dropped.
pub mod Laws
use iroh_willow.Prelude.{ℕ, zero, suc, Option, none, some, List, [], ◌∷◌}
use iroh_willow.Prelude.Map.{put, lookup_or}
use iroh_willow.Model.{DataModel}
use iroh_willow.Store.Events.{PollEvent, ready, closed, pending, next_progress_id, poll_next}
use iroh_willow.Store.StoreEvent.{StoreEvent, SubscribeParams, matches}
use iroh_willow.Store.Memory.{NamespaceStore, EntryStore, empty_store}

pub record EventStream (m : DataModel) : Type 0 where
  pub progress_id : ℕ
  pub namespace : ℕ
  pub area : m.Area
  pub params : SubscribeParams

pub data StreamPoll (m : DataModel) : Type 0 where
  item : StoreEvent m → StreamPoll m
  ended : StreamPoll m
  waiting : StreamPoll m

module _ (m : DataModel) where
  unfoldable pub resume_subscription : ℕ → ℕ → m.Area → SubscribeParams → EventStream m
  resume_subscription id namespace area params = record {
    progress_id = id;
    namespace = namespace;
    area = area;
    params = params;
  }

  -- The namespace's store is created if it is missing.
  unfoldable pub subscribe_area :
      ℕ → m.Area → SubscribeParams → EntryStore m → EventStream m × EntryStore m
  subscribe_area namespace area params s =
      let store = lookup_or (empty_store m) namespace s.stores in
      (
        record {
          progress_id = next_progress_id store.events;
          namespace = namespace;
          area = area;
          params = params;
        },
        record { stores = put namespace store s.stores },
      )

  unfoldable pub stream_poll_result :
      PollEvent (StoreEvent m) → EventStream m → StreamPoll m × EventStream m
  stream_poll_result pending st = (waiting, st)
  stream_poll_result closed st = (ended, st)
  stream_poll_result (ready next event) st = (item event, record st { progress_id = next })

  unfoldable pub stream_poll :
      ℕ
      → EventStream m
      → Option (EntryStore m)
      → (StreamPoll m × EventStream m) × Option (EntryStore m)
  stream_poll waker st none = ((ended, st), none)
  stream_poll waker st (some s) =
      let store = lookup_or (empty_store m) st.namespace s.stores in
      let (r, q) =
        poll_next st.progress_id (matches m st.namespace st.area st.params) waker store.events in
      (
        stream_poll_result r st,
        some (record { stores = put st.namespace (record store { events = q }) s.stores }),
      )
