-- ===== src/Store/Memory/Tests.antt =====
-- Runs of the in-memory entry store, and the theorems on it at concrete inputs.
use iroh_willow.Prelude.{
  ℕ, ◌≢◌, ◌≡◌, ◌⊎◌, refl, true, none, some, [], ◌∷◌, any, zero, suc, subst, sym, arith,
}
use iroh_willow.Model.Toy.{toy, list_eq, at_path, list_eq_sound, list_eq_refl, prefix_refl}
use iroh_willow.Model.{NewerTotal, PathEqDecides}
use iroh_willow.Store.Events.{empty_queue, insert, get, scan, poll_next, next_progress_id}
use iroh_willow.Store.StoreEvent.{
  local, ingested, pruned, default_params, matches, includes_entry, includes_origin,
}
use iroh_willow.Store.Memory
use iroh_willow.Store.Memory.{
  NamespaceStore, EntryStore, remove_at, blocks, prunes, prune_all, prune_event, push_entry, ingest,
  ingest_entry, empty_store, get_entry,
}
use iroh_willow.Store.Memory.Scan.{prunable}
use iroh_willow.Store.Memory.Ingest.{
  store_of, ingest_entry-inserted, ingest_entry_stale, after_ingest,
}
use iroh_willow.Store.Memory.Antichain.{
  IsAntichain, ingest_entry-IsAntichain, get_entry-ingest_entry,
}
use iroh_willow.Store.Memory.Subscribe.{subscribe_area, stream_poll, stream_poll_result}
use iroh_willow.Store.Memory.Subscribe.Laws.{stream_drain, subscribe_then_ingest}

program : Unit {0}
unfolding empty_queue insert get scan poll_next next_progress_id default_params matches
    includes_entry includes_origin remove_at blocks prunes Memory.scan prune_all prune_event
    push_entry ingest ingest_entry empty_store get_entry Memory.find Memory.is_at subscribe_area
    stream_poll stream_poll_result stream_drain
program = tt

abbrev one : EntryStore toy
one = record {
  stores =
      (
        0,
        record {
          entries = at_path (1 ∷ 2 ∷ []) 5 ∷ at_path (3 ∷ []) 9 ∷ [];
          events = record { events = []; offset = 0; wakers = [] };
        },
      )
      ∷ [];
}

-- The entries of `one` with a second one below path 1.
abbrev two : EntryStore toy
two = record {
  stores =
      (
        0,
        record {
          entries = at_path (1 ∷ 2 ∷ []) 5 ∷ at_path (1 ∷ 3 ∷ []) 5 ∷ at_path (3 ∷ []) 9 ∷ [];
          events = record { events = []; offset = 0; wakers = [] };
        },
      )
      ∷ [];
}

-- The second removal takes the entry at path 3, and path 1/3 stays.
stale_run :
    ingest_entry toy (at_path (1 ∷ []) 7) local two
    ≡ some (
      true,
      record {
        stores =
            (
              0,
              record {
                entries = at_path (1 ∷ 3 ∷ []) 5 ∷ at_path (1 ∷ []) 7 ∷ [];
                events = record {
                  events =
                      pruned 0 (record { pruned = at_path (1 ∷ 2 ∷ []) 5; by = at_path (1 ∷ []) 7 })
                      ∷ pruned 1 (record { pruned = at_path (3 ∷ []) 9; by = at_path (1 ∷ []) 7 })
                      ∷ ingested 2 (at_path (1 ∷ []) 7) local
                      ∷ [];
                  offset = 0;
                  wakers = [];
                };
              },
            )
            ∷ [];
      },
    )
unfolding program
stale_run = refl

abbrev new : toy.AuthorisedEntry
new = at_path (1 ∷ []) 7

ingest_entry-inserted_example :
    (t : EntryStore toy) × (ingest_entry toy new local one ≡ some (true, t))
    × (store_of 0 t ≡ after_ingest toy new local (at_path (1 ∷ 2 ∷ []) 5 ∷ []) (store_of 0 one))
    × ((n : ℕ) → n ≢ 0 → store_of n t ≡ store_of n one)
unfolding program
ingest_entry-inserted_example = ingest_entry-inserted toy new local one refl (omega arith)

ingest_entry_stale_example :
    (ingest_entry toy new local two ≡ none)
    ⊎ ((t : EntryStore toy) × (ingest_entry toy new local two ≡ some (true, t))
        × (any (prunable toy new) (store_of 0 t).entries ≡ true))
unfolding program
ingest_entry_stale_example = ingest_entry_stale toy new local two refl (omega arith)

one-IsAntichain : (n : ℕ) → IsAntichain toy (store_of n one).entries
unfolding prunes empty_store
one-IsAntichain zero = (((refl, refl), tt), (tt, tt))
one-IsAntichain (suc n) =
    let other : store_of (suc n) one ≡ empty_store toy = ground arith in
    subst (λ s. IsAntichain toy s.entries) (sym other) tt

ingest_entry-IsAntichain_example :
    (t : EntryStore toy) × (ingest_entry toy new local one ≡ some (true, t))
    × ((n : ℕ) → IsAntichain toy (store_of n t).entries)
unfolding program
ingest_entry-IsAntichain_example =
    ingest_entry-IsAntichain toy new local one one-IsAntichain refl (omega arith)

toy-PathEqDecides : PathEqDecides toy
toy-PathEqDecides a b = (list_eq_sound a b, λ e. rw e (list_eq_refl b))

toy-NewerTotal : NewerTotal toy
toy-NewerTotal a b n s p =
    let same : list_eq a.path b.path ≡ true = rw p (list_eq_refl b.path) in ground arith

get_entry-ingest_entry_example :
    (t : EntryStore toy) × (ingest_entry toy new local one ≡ some (true, t))
    × (get_entry toy 0 1 (1 ∷ []) t ≡ some new)
unfolding program
get_entry-ingest_entry_example =
    get_entry-ingest_entry toy new local toy-PathEqDecides prefix_refl toy-NewerTotal one refl
      (omega arith)

subscribe_then_ingest_example :
    let (st, s') = subscribe_area toy 0 (record { subspace = 1; path = [] }) default_params one in
    (t : EntryStore toy) × (ingest_entry toy new local s' ≡ some (true, t))
    × (stream_drain toy 3 st t
        ≡ pruned 0 (record { pruned = at_path (1 ∷ 2 ∷ []) 5; by = new })
          ∷ ingested 1 new local
          ∷ [])
unfolding program
subscribe_then_ingest_example =
    subscribe_then_ingest toy new local (record { subspace = 1; path = [] }) default_params one refl
      (omega arith)
