-- ===== src/Store/Memory/Antichain.antt =====
-- The invariant of the entry store: no entry prunes another; and lookups after an ingestion.
use iroh_willow.Prelude.{
  ℕ, ◌≤◌, ◌≡◌, refl, ap, inl, inr, Bool, true, false, some, List, [], ◌∷◌, ◌++◌, ◌==◌, keep, any,
  All, All-keep, length, arith, Bool-cases, ==_iff,
}
use iroh_willow.Model.{DataModel, PathEqDecides, PrefixRefl, NewerTotal}
use iroh_willow.Store.StoreEvent.{EntryOrigin}
use iroh_willow.Store.Memory.{
  EntryStore, prunes, blocks, push_entry, ingest_entry, empty_store, entries_in, find, is_at,
  get_entry,
}
use iroh_willow.Store.Memory.Scan.{prunable, refuses, unpruned}
use iroh_willow.Store.Memory.Ingest.{store_of, own, after_ingest, ingest_entry-inserted}

module _ (m : DataModel) where
  -- Neither of two entries prunes the other.
  abbrev pub Apart : m.AuthorisedEntry → m.AuthorisedEntry → Type 0
  Apart x y =
      (prunes m (m.entry x) (m.entry y) ≡ false) × (prunes m (m.entry y) (m.entry x) ≡ false)

  abbrev pub IsAntichain : List m.AuthorisedEntry → Type 0
  IsAntichain [] = Unit {0}
  IsAntichain (x ∷ xs) = All (Apart x) xs × IsAntichain xs

  keep-IsAntichain :
      (p : m.AuthorisedEntry → Bool) (xs : List m.AuthorisedEntry)
      → IsAntichain xs
      → IsAntichain (keep p xs)
  keep-IsAntichain p [] h = tt
  keep-IsAntichain p (x ∷ xs) h = elim (Bool-cases (p x)) [
    | inl e ↦ rw e (All-keep (Apart x) p xs h.0, keep-IsAntichain p xs h.1)
    | inr e ↦ rw e (keep-IsAntichain p xs h.1)
  ]

  All-snoc :
      (P : m.AuthorisedEntry → Type 0) (xs : List m.AuthorisedEntry) (y : m.AuthorisedEntry)
      → All P xs
      → P y
      → All P (xs ++ y ∷ [])
  All-snoc P [] y h k = (k, tt)
  All-snoc P (x ∷ xs) y h k = (h.0, All-snoc P xs y h.1 k)

  snoc-IsAntichain :
      (xs : List m.AuthorisedEntry) (y : m.AuthorisedEntry)
      → IsAntichain xs
      → All (λ x. Apart x y) xs
      → IsAntichain (xs ++ y ∷ [])
  snoc-IsAntichain [] y h k = (tt, tt)
  snoc-IsAntichain (x ∷ xs) y h k = (All-snoc (Apart x) xs y h.0 k.0, snoc-IsAntichain xs y h.1 k.1)

entries_in_lem :
    (m : DataModel) (n : ℕ) (s : EntryStore m) → entries_in m n s ≡ (store_of n s).entries
unfolding entries_in empty_store
entries_in_lem m n s = ground arith

pub get_entry_lem :
    (m : DataModel) (n subspace : ℕ) (path : m.EntryPath) (s : EntryStore m)
    → get_entry m n subspace path s
      ≡ find m (λ e. is_at m n subspace path (m.entry e)) (store_of n s).entries
unfolding get_entry empty_store
get_entry_lem m n subspace path s =
    ap (find m (λ e. is_at m n subspace path (m.entry e))) (entries_in_lem m n s)

module _ (m : DataModel) (new : m.AuthorisedEntry) (origin : EntryOrigin) where
  abbrev survivors : List m.AuthorisedEntry → List m.AuthorisedEntry
  survivors = keep (unpruned m (m.entry new))

  -- What neither keeps the new entry out nor is pruned by it stands apart from it.
  survivors-Apart :
      (xs : List m.AuthorisedEntry)
      → any (refuses m (m.entry new)) xs ≡ false
      → All (λ x. Apart m x new) (survivors xs)
  survivors-Apart [] h = tt
  survivors-Apart (x ∷ xs) h =
      let ih = survivors-Apart xs (ground arith) in
      elim (Bool-cases (unpruned m (m.entry new) x)) [
        | inl e ↦ rw e ((unfold blocks prunes in ground arith, ground arith), ih)
        | inr e ↦ rw e ih
      ]

  entries-after_ingest :
      (pruned : List m.AuthorisedEntry) (xs : _)
      → (after_ingest m new origin pruned xs).entries ≡ survivors xs.entries ++ new ∷ []
  unfolding push_entry
  entries-after_ingest pruned xs = refl

  -- An ingestion that prunes at most one entry keeps the invariant that no entry of a namespace
  -- prunes another.
  pub ingest_entry-IsAntichain :
      (s : EntryStore m)
      → ((n : ℕ) → IsAntichain m (store_of n s).entries)
      → any (refuses m (m.entry new)) (store_of (own m new origin) s).entries ≡ false
      → length (keep (prunable m (m.entry new)) (store_of (own m new origin) s).entries) ≤ 1
      → (t : EntryStore m) × (ingest_entry m new origin s ≡ some (true, t))
        × ((n : ℕ) → IsAntichain m (store_of n t).entries)
  unfolding push_entry
  ingest_entry-IsAntichain s inv h few =
      let (t, e, here, elsewhere) = ingest_entry-inserted m new origin s h few in
      let before = (store_of (own m new origin) s).entries in
      (
        t,
        e,
        λ n. elim (Bool-cases (n == own m new origin)) [
          | inl eq ↦ rw ((==_iff n _).0 eq) (
              rw here (
                snoc-IsAntichain m (survivors before) new
                  (keep-IsAntichain m (unpruned m (m.entry new)) before (inv (own m new origin)))
                  (survivors-Apart before h)))
          | inr ne ↦ rw (elsewhere n (ground (arith, ne))) (inv n)
        ],
      )

  module _ (path_decides : PathEqDecides m) (reflexive : PrefixRefl m) (total : NewerTotal m) where
    abbrev at_new : m.AuthorisedEntry → Bool
    at_new e =
        is_at m (m.namespace_id (m.entry new)) (m.subspace_id (m.entry new)) (m.path (m.entry new))
          (m.entry e)

    -- An entry at the place of the new one is refused or pruned.
    not-at_new :
        (x : m.AuthorisedEntry)
        → refuses m (m.entry new) x ≡ false
        → unpruned m (m.entry new) x ≡ true
        → at_new x ≡ false
    unfolding prunes blocks is_at
    not-at_new x h k = elim (Bool-cases (at_new x)) [
      | inr e ↦ e
      | inl e ↦
          let same : m.path (m.entry x) ≡ m.path (m.entry new) =
            (path_decides _ _).0 (ground arith) in
          let t = total (m.entry x) (m.entry new) (ground arith) (ground arith) same in
          let r = reflexive (m.path (m.entry new)) in ground (arith, t, same, r)
    ]

    at_new_self : at_new new ≡ true
    unfolding is_at
    at_new_self = ground (arith, (path_decides (m.path (m.entry new)) _).1 refl)

    find-survivors :
        (xs : List m.AuthorisedEntry)
        → any (refuses m (m.entry new)) xs ≡ false
        → find m at_new (survivors xs ++ new ∷ []) ≡ some new
    unfolding find
    find-survivors [] h = rw at_new_self
    find-survivors (x ∷ xs) h = ground (arith, find-survivors xs, not-at_new x)

    -- A successful ingestion that prunes at most one entry is read back: looking up the place of
    -- the new entry finds the new entry. This relies on the path equality of the crate, on paths
    -- being prefixes of themselves, and on entries at one place being ordered.
    pub get_entry-ingest_entry :
        (s : EntryStore m)
        → any (refuses m (m.entry new)) (store_of (own m new origin) s).entries ≡ false
        → length (keep (prunable m (m.entry new)) (store_of (own m new origin) s).entries) ≤ 1
        → (t : EntryStore m) × (ingest_entry m new origin s ≡ some (true, t))
          × (get_entry m
                (m.namespace_id (m.entry new))
                (m.subspace_id (m.entry new))
                (m.path (m.entry new))
                t
              ≡ some new)
    unfolding push_entry
    get_entry-ingest_entry s h few =
        let (t, e, here, _) = ingest_entry-inserted m new origin s h few in
        (
          t,
          e,
          rw (get_entry_lem m (m.namespace_id (m.entry new)) _ _ t)
              (rw here (find-survivors (store_of (own m new origin) s).entries h)),
        )
