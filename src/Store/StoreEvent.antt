-- ===== src/Store/StoreEvent.antt =====
-- `StoreEvent`, `EntryOrigin` and `SubscribeParams` of src/store/traits.rs.
use iroh_willow.Prelude.{ℕ, Bool, true, false, ◌&&◌, not, Option, none, some, ◌==◌}
use iroh_willow.Model.{DataModel}

pub data EntryOrigin : Type 0 where
  local : EntryOrigin
  remote : ℕ → EntryOrigin

pub record PruneEvent (m : DataModel) : Type 0 where
  pub pruned : m.AuthorisedEntry
  pub by : m.AuthorisedEntry

pub data StoreEvent (m : DataModel) : Type 0 where
  ingested : ℕ → m.AuthorisedEntry → EntryOrigin → StoreEvent m
  pruned : ℕ → PruneEvent m → StoreEvent m

pub record SubscribeParams : Type 0 where
  pub ignore_empty_payloads : Bool
  pub ignore_remote : Option ℕ
  pub ingest_only : Bool

unfoldable pub default_params : SubscribeParams
default_params = record { ignore_empty_payloads = false; ignore_remote = none; ingest_only = false }

unfoldable pub ignoring_empty_payloads : SubscribeParams → SubscribeParams
ignoring_empty_payloads p = record p { ignore_empty_payloads = true }

unfoldable pub ignoring_remote : ℕ → SubscribeParams → SubscribeParams
ignoring_remote session p = record p { ignore_remote = some session }

unfoldable pub only_ingests : SubscribeParams → SubscribeParams
only_ingests p = record p { ingest_only = true }

unfoldable pub includes_origin : SubscribeParams → EntryOrigin → Bool
includes_origin p origin = elim p.ignore_remote [
  | none ↦ true
  | some ignored ↦ elim origin [ local ↦ true | remote session ↦ not (session == ignored) ]
]

module _ (m : DataModel) where
  unfoldable pub progress_id : StoreEvent m → ℕ
  progress_id (ingested id _ _) = id
  progress_id (pruned id _) = id

  unfoldable pub includes_entry : SubscribeParams → m.Entry → Bool
  includes_entry p e = not (p.ignore_empty_payloads && m.payload_length e == 0)

  unfoldable pub matches : ℕ → m.Area → SubscribeParams → StoreEvent m → Bool
  matches namespace area params (ingested _ entry origin) =
      m.namespace_id (m.entry entry) == namespace
      && m.includes_entry area (m.entry entry)
      && includes_entry params (m.entry entry)
      && includes_origin params origin
  matches namespace area params (pruned _ event) =
      not params.ingest_only
      && m.namespace_id (m.entry event.pruned) == namespace
      && m.includes_entry area (m.entry event.pruned)
