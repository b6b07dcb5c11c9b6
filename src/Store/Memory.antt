-- ===== src/Store/Memory.antt =====
-- The in-memory entry store of src/store/memory.rs: a list of entries and an event queue for each
-- namespace. `ingest` is the program's, with its removals by index; `panicked` stands for the
-- panic of `Vec::remove` past the end.
pub mod Scan
pub mod Ingest
pub mod Antichain
pub mod Subscribe
mod Tests
use iroh_willow.Prelude.{
  ℕ, zero, suc, Bool, true, false, ◌&&◌, Option, none, some, List, [], ◌∷◌, ◌++◌, map, ◌==◌, keep,
  if◌then◌else◌,
}
use iroh_willow.Prelude.Map.{Map, lookup, put, lookup_or}
use iroh_willow.Model.{DataModel}
use iroh_willow.Store.Events.{
  EventQueue, PollEvent, ready, closed, pending, empty_queue, insert, next_progress_id, poll_next,
}
use iroh_willow.Store.StoreEvent.{
  EntryOrigin, StoreEvent, ingested, pruned, PruneEvent, SubscribeParams, matches,
}

pub record NamespaceStore (m : DataModel) : Type 0 where
  pub entries : List m.AuthorisedEntry
  pub events : EventQueue (StoreEvent m)

pub record EntryStore (m : DataModel) : Type 0 where
  pub stores : Map (NamespaceStore m)

-- The outcome of an ingestion into one namespace.
pub data Outcome (m : DataModel) : Type 0 where
  panicked : Outcome m
  rejected : Outcome m
  inserted : NamespaceStore m → Outcome m

-- `Vec::remove`: what is behind the index moves down by one; past the end it panics.
unfoldable pub remove_at : {A : Type 0} → ℕ → List A → Option (A × List A)
remove_at i [] = none
remove_at zero (x ∷ xs) = some (x, xs)
remove_at (suc i) (x ∷ xs) = elim (remove_at i xs) [
  | none ↦ none
  | some (y, rest) ↦ some (y, x ∷ rest)
]

module _ (m : DataModel) where
  unfoldable pub empty_store : NamespaceStore m
  empty_store = record { entries = []; events = empty_queue }

  -- A newer entry exists: `existing` keeps `new` out.
  unfoldable pub blocks : m.Entry → m.Entry → Bool
  blocks new existing =
      m.subspace_id existing == m.subspace_id new
      && m.is_prefix_of (m.path existing) (m.path new)
      && m.is_newer_than existing new

  unfoldable pub prunes : m.Entry → m.Entry → Bool
  prunes new existing =
      m.subspace_id new == m.subspace_id existing
      && m.is_prefix_of (m.path new) (m.path existing)
      && m.is_newer_than new existing

  -- The loop over the existing entries: `none` is the early return, and otherwise the indices to
  -- prune.
  unfoldable pub scan : m.Entry → ℕ → List m.AuthorisedEntry → Option (List ℕ)
  scan new i [] = some []
  scan new i (e ∷ es) =
      let rest = scan new (suc i) es in
      if m.entry_eq (m.entry e) new
      then none
      else if blocks new (m.entry e)
      then none
      else elim rest [
        | none ↦ none
        | some is ↦ some (if prunes new (m.entry e) then i ∷ is else is)
      ]

  unfoldable pub prune_event : m.AuthorisedEntry → m.AuthorisedEntry → ℕ → StoreEvent m
  prune_event old new id = pruned id (record { pruned = old; by = new })

  -- `for i in to_prune { entries.remove(i); … }`, with the indices as they were before.
  unfoldable pub prune_all :
      m.AuthorisedEntry → List ℕ → NamespaceStore m → Option (NamespaceStore m)
  prune_all new [] s = some s
  prune_all new (i ∷ is) s = elim (remove_at i s.entries) [
    | none ↦ none
    | some (old, rest) ↦
        prune_all new is (record { entries = rest; events = insert (prune_event old new) s.events })
  ]

  unfoldable pub push_entry : m.AuthorisedEntry → EntryOrigin → NamespaceStore m → NamespaceStore m
  push_entry new origin s = record {
    entries = s.entries ++ new ∷ [];
    events = insert (λ id. ingested id new origin) s.events;
  }

  unfoldable pub ingest : m.AuthorisedEntry → EntryOrigin → NamespaceStore m → Outcome m
  ingest new origin s = elim (scan (m.entry new) 0 s.entries) [
    | none ↦ rejected
    | some to_prune ↦ elim (prune_all new to_prune s) [
      | none ↦ panicked
      | some s' ↦ inserted (push_entry new origin s')
    ]
  ]

  -- `EntryStore::ingest_entry`: `none` is the panic. The namespace's store is created first.
  unfoldable pub ingest_entry :
      m.AuthorisedEntry → EntryOrigin → EntryStore m → Option (Bool × EntryStore m)
  ingest_entry new origin s =
      let namespace = m.namespace_id (m.entry new) in
      let store = lookup_or empty_store namespace s.stores in
      elim (ingest new origin store) [
        | panicked ↦ none
        | rejected ↦ some (false, record { stores = put namespace store s.stores })
        | inserted store' ↦ some (true, record { stores = put namespace store' s.stores })
      ]

  pub entries_in : ℕ → EntryStore m → List m.AuthorisedEntry
  entries_in namespace s = elim (lookup namespace s.stores) [ none ↦ [] | some t ↦ t.entries ]

  -- `range.includes_entry` is the crate's.
  unfoldable pub get_authorised_entries :
      ℕ → (m.Entry → Bool) → EntryStore m → List m.AuthorisedEntry
  unfolding entries_in
  get_authorised_entries namespace includes s =
      keep (λ e. includes (m.entry e)) (entries_in namespace s)

  unfoldable pub find :
      (m.AuthorisedEntry → Bool) → List m.AuthorisedEntry → Option m.AuthorisedEntry
  find p [] = none
  find p (e ∷ es) = if p e then some e else find p es

  unfoldable pub is_at : ℕ → ℕ → m.EntryPath → m.Entry → Bool
  is_at namespace subspace path e =
      m.namespace_id e == namespace && m.subspace_id e == subspace && m.path_eq (m.path e) path

  unfoldable pub get_entry : ℕ → ℕ → m.EntryPath → EntryStore m → Option m.AuthorisedEntry
  unfolding entries_in
  get_entry namespace subspace path s =
      find (λ e. is_at namespace subspace path (m.entry e)) (entries_in namespace s)

  unfoldable pub snapshot : EntryStore m → EntryStore m
  snapshot s = record {
    stores = map (λ kv. (kv.0, record { entries = kv.1.entries; events = empty_queue })) s.stores;
  }
