-- ===== src/Store/Memory/Ingest.antt =====
-- What `ingest_entry` of src/store/memory.rs does on each of its branches.
use iroh_willow.Prelude.{
  ℕ, zero, suc, ◌-◌, ◌≤◌, ◌≡◌, ◌≢◌, refl, ap, ◌∙◌, ◌⊎◌, inl, inr, Bool, true, false, Option, none,
  some, List, [], ◌∷◌, ◌++◌, keep, any, length, ◌+◌, length-append, append_assoc, get_elem?,
  if◌then◌else◌, arith, Option-cases,
}
use iroh_willow.Prelude.Map.{put, lookup_or, lookup-put, lookup_or-put_self}
use iroh_willow.Model.{DataModel}
use iroh_willow.Store.Events.{EventQueue, insert, next_progress_id}
use iroh_willow.Store.StoreEvent.{EntryOrigin, StoreEvent, ingested, pruned}
use iroh_willow.Store.Memory.{
  NamespaceStore, EntryStore, Outcome, panicked, rejected, inserted, remove_at, prune_all,
  prune_event, push_entry, ingest, ingest_entry, empty_store,
}
use iroh_willow.Store.Memory.Scan.{
  remove_at-gt, All-mono, prunable, refuses, unpruned, indices, scan_lem, length-indices,
  indices_second, keep-unpruned_nil, keep-prunable_nil, remove_at_single, get_elem?-prune_all,
}

any_of_get :
    {A : Type 0} (f : A → Bool) (xs : List A) (i : ℕ) (x : A)
    → get_elem? xs i ≡ some x
    → f x ≡ true
    → any f xs ≡ true
any_of_get f [] i x e h = ground arith
any_of_get f (y ∷ ys) zero x e h = ground arith
any_of_get f (y ∷ ys) (suc i) x e h = ground (arith, any_of_get f ys i x)

any-append_left :
    {A : Type 0} (f : A → Bool) (xs ys : List A) → any f xs ≡ true → any f (xs ++ ys) ≡ true
any-append_left f [] ys h = ground arith
any-append_left f (x ∷ xs) ys h = ground (arith, any-append_left f xs ys)

-- The store of one namespace; one that was never used is empty.
abbrev pub store_of : {m : DataModel} → ℕ → EntryStore m → NamespaceStore m
store_of {m} n s = lookup_or (empty_store m) n s.stores

abbrev entry_outcome : {m : DataModel} → ℕ → EntryStore m → Outcome m → Option (Bool × EntryStore m)
entry_outcome n s panicked = none
entry_outcome n s rejected = some (false, record { stores = put n (store_of n s) s.stores })
entry_outcome n s (inserted t) = some (true, record { stores = put n t s.stores })

module _ (m : DataModel) (new : m.AuthorisedEntry) (origin : EntryOrigin) where
  -- An ingestion that meets no refusing entry is decided by the removals.
  abbrev outcome : Option (NamespaceStore m) → Outcome m
  outcome none = panicked
  outcome (some t) = inserted (push_entry m new origin t)

  ingest_lem :
      (s : NamespaceStore m)
      → ingest m new origin s ≡ (
          if any (refuses m (m.entry new)) s.entries
          then rejected
          else outcome (prune_all m new (indices m (m.entry new) 0 s.entries) s))
  unfolding ingest
  ingest_lem s = rw (scan_lem m (m.entry new) 0 s.entries, ingest) (ground arith)

  -- The events of an ingestion for which one entry, or none, makes way, from the progress id `id` on:
  -- first that it was pruned, then that the new one came.
  abbrev pub events_of : List m.AuthorisedEntry → ℕ → List (StoreEvent m)
  events_of [] id = ingested id new origin ∷ []
  events_of (old ∷ _) id =
      pruned id (record { pruned = old; by = new }) ∷ ingested (suc id) new origin ∷ []

  -- The store after the pruned entries, one at most, made way for the new one.
  abbrev pub after_ingest : List m.AuthorisedEntry → NamespaceStore m → NamespaceStore m
  after_ingest gone s = record {
    entries = keep (unpruned m (m.entry new)) s.entries ++ new ∷ [];
    events = record {
      events = s.events.events ++ events_of gone (s.events.offset + length s.events.events);
      offset = s.events.offset;
      wakers = [];
    };
  }

  insert_both :
      (old : m.AuthorisedEntry) (q : EventQueue (StoreEvent m))
      → insert (λ id. ingested id new origin) (insert (prune_event m old new) q) ≡ record {
        events = q.events ++ events_of (old ∷ []) (q.offset + length q.events);
        offset = q.offset;
        wakers = [];
      }
  unfolding insert next_progress_id prune_event
  insert_both old q =
      let first : List (StoreEvent m) = prune_event m old new (q.offset + length q.events) ∷ [] in
      let grown : q.offset + length (q.events ++ first) ≡ suc (q.offset + length q.events) =
        omega (arith, length-append q.events first) in
      rw (grown, append_assoc) refl

  prune_all_single :
      (s : NamespaceStore m) (is : List ℕ)
      → indices m (m.entry new) 0 s.entries ≡ is
      → length is ≤ 1
      → outcome (prune_all m new is s)
        ≡ inserted (after_ingest (keep (prunable m (m.entry new)) s.entries) s)
  unfolding prune_all push_entry insert next_progress_id
  prune_all_single s [] e h = rw (
    keep-unpruned_nil m (m.entry new) 0 s.entries e,
    keep-prunable_nil m (m.entry new) 0 s.entries e,
  )
  prune_all_single s (j ∷ []) e h =
      let (_, (y, removed, one)) = remove_at_single m (m.entry new) 0 s.entries j e in
      let d : j - 0 ≡ j = omega arith in
      let removed' = rw d at removed in
      let kept = keep (unpruned m (m.entry new)) s.entries in
      rw (one, removed', prune_all)
        (ap (λ q. inserted (record { entries = kept ++ new ∷ []; events = q }))
          (insert_both y s.events))
  prune_all_single s (j ∷ k ∷ js) e h = absurd (omega arith)

  prune_all_double :
      (s t : NamespaceStore m) (is : List ℕ)
      → indices m (m.entry new) 0 s.entries ≡ is
      → 2 ≤ length is
      → prune_all m new is s ≡ some t
      → any (prunable m (m.entry new)) t.entries ≡ true
  unfolding prune_all
  prune_all_double s t [] e h p = absurd (omega arith)
  prune_all_double s t (j ∷ []) e h p = absurd (omega arith)
  prune_all_double s t (j ∷ k ∷ js) e h p =
      let (_, before, later, (y, found, hit)) =
        indices_second m (m.entry new) 0 s.entries j k js e in
      elim (Option-cases (remove_at j s.entries)) [
        | inl gone ↦ ground arith
        | inr ((old, rest), r) ↦
            let p' = rw (r, prune_all) at p in
            let kept =
              get_elem?-prune_all m new (k - 1) (k ∷ js) _ t
                (omega arith, All-mono (suc (k - 1)) (suc k) js (omega arith) later) p' in
            let moved = remove_at-gt j (k - 1) s.entries rest old r (omega arith) in
            let up : suc (k - 1) ≡ k - 0 = omega arith in
            any_of_get (prunable m (m.entry new)) t.entries (k - 1) y
              (kept ∙ moved ∙ ap (get_elem? s.entries) up ∙ found) hit
      ]

  any-push :
      (f : m.AuthorisedEntry → Bool) (t : NamespaceStore m)
      → any f t.entries ≡ true
      → any f (push_entry m new origin t).entries ≡ true
  unfolding push_entry
  any-push f t h = any-append_left f t.entries (new ∷ []) h

  abbrev pub own : ℕ
  own = m.namespace_id (m.entry new)

  ingest_entry_lem :
      (s : EntryStore m) (r : Outcome m)
      → ingest m new origin (store_of own s) ≡ r
      → ingest_entry m new origin s ≡ entry_outcome own s r
  unfolding ingest_entry
  ingest_entry_lem s panicked e = rw (e, ingest_entry)
  ingest_entry_lem s rejected e = rw (e, ingest_entry)
  ingest_entry_lem s (inserted t) e = rw (e, ingest_entry)

  -- When an existing entry of the namespace equals the new one or keeps it out, the ingestion
  -- reports `false` and no namespace's entries or events change.
  pub ingest_entry-rejected :
      (s : EntryStore m)
      → any (refuses m (m.entry new)) (store_of own s).entries ≡ true
      → (t : EntryStore m) × (ingest_entry m new origin s ≡ some (false, t))
        × ((n : ℕ) → store_of n t ≡ store_of n s)
  ingest_entry-rejected s h = (
    record { stores = put own (store_of own s) s.stores },
    ingest_entry_lem s rejected (rw (ingest_lem (store_of own s), h)),
    λ n. ground (arith, lookup-put own n (store_of own s) s.stores),
  )

  -- When nothing keeps the new entry out and it prunes at most one existing entry, the ingestion
  -- reports `true`; the namespace's entries are the former ones without the pruned one, with the
  -- new one at the end; to the events come one for the pruned entry, if there is one, and then one for
  -- the new entry; other namespaces are untouched.
  pub ingest_entry-inserted :
      (s : EntryStore m)
      → any (refuses m (m.entry new)) (store_of own s).entries ≡ false
      → length (keep (prunable m (m.entry new)) (store_of own s).entries) ≤ 1
      → (t : EntryStore m) × (ingest_entry m new origin s ≡ some (true, t))
        × (store_of own t
            ≡ after_ingest
                (keep (prunable m (m.entry new)) (store_of own s).entries)
                (store_of own s))
        × ((n : ℕ) → n ≢ own → store_of n t ≡ store_of n s)
  ingest_entry-inserted s h few =
      let before = store_of own s in
      let after = after_ingest (keep (prunable m (m.entry new)) before.entries) before in
      let lengths = length-indices m (m.entry new) 0 before.entries in
      (
        record { stores = put own after s.stores },
        ingest_entry_lem s (inserted after) (
            rw (ingest_lem before, h)
              (prune_all_single before (indices m (m.entry new) 0 before.entries) refl
                (omega (arith, lengths)))),
        ground (arith, lookup-put own own after s.stores),
        λ n other. ground (arith, lookup-put own n after s.stores),
      )

  -- When nothing keeps the new entry out and it prunes two or more existing entries, the indices
  -- of the second and later removals are stale: either a removal panics, or the ingestion reports
  -- success and leaves an entry in the store that the new one should have pruned.
  pub ingest_entry_stale :
      (s : EntryStore m)
      → any (refuses m (m.entry new)) (store_of own s).entries ≡ false
      → 2 ≤ length (keep (prunable m (m.entry new)) (store_of own s).entries)
      → (ingest_entry m new origin s ≡ none)
        ⊎ ((t : EntryStore m) × (ingest_entry m new origin s ≡ some (true, t))
            × (any (prunable m (m.entry new)) (store_of own t).entries ≡ true))
  ingest_entry_stale s h many =
      let before = store_of own s in
      let is = indices m (m.entry new) 0 before.entries in
      let lengths = length-indices m (m.entry new) 0 before.entries in
      elim (Option-cases (prune_all m new is before)) [
        | inl e ↦ inl (ingest_entry_lem s panicked (rw (ingest_lem before, h, e)))
        | inr (t, e) ↦
            let after = push_entry m new origin t in
            let kept = prune_all_double before t is refl (omega (arith, lengths)) e in
            inr (
              record { stores = put own after s.stores },
              ingest_entry_lem s (inserted after) (rw (ingest_lem before, h, e)),
              rw (lookup_or-put_self (empty_store m) own after s.stores)
                  (any-push (prunable m (m.entry new)) t kept),
            )
      ]
