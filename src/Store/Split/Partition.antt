-- ===== src/Store/Split/Partition.antt =====
-- The splitting of a range in src/store/traits.rs as a partition.
use iroh_willow.Prelude.{
  ℕ, ◌/◌, ◌<◌, ◌≡◌, refl, ap, sym, subst, ◌∙◌, true, false, not, if_cases, arith, Bool-cases, inl,
  inr, List, [], ◌∷◌, map, length, get_elem?, zero, suc, All, keep, none, some, leb,
}
use iroh_willow.Prelude.Map.{lookup}
use iroh_willow.Model.{DataModel}
use iroh_willow.Session.Error.{Result, ok}
use iroh_willow.Session.Storage.{SplitAction, split_entries}
use iroh_willow.Store.Memory.{EntryStore, get_authorised_entries}
use iroh_willow.Store.Ranges.{Ranges, Laws}
use iroh_willow.Store.Fingerprint.{Fingerprint}
use iroh_willow.Store.Split.{
  Range3d, SplitOpts, includes_entry, get_entries, count, sortable_le, insert_sorted, sort_entries,
  by_subspace, by_path, by_time, ranges_at, ranges_of, with_fingerprints, after_split, split_range,
}
use iroh_willow.Store.Split.Halves.{
  covers, Partitions, halves-Partitions, includes-lower, includes-upper, start_le,
}

pub get_elem?-All :
    {A : Type 0} (P : A → Type 0) (xs : List A) (i : ℕ)
    → All P xs
    → i < length xs
    → (x : A) × (get_elem? xs i ≡ some x) × P x
get_elem?-All P [] i h lt = absurd (omega arith)
get_elem?-All P (x ∷ xs) zero h lt = (x, refl, h.0)
get_elem?-All P (x ∷ xs) (suc i) h lt = get_elem?-All P xs i h.1 (omega arith)

pub many_lem : (n k : ℕ) → leb n k ≡ false → k < n
many_lem n k e = ground arith

module _ {m : DataModel} (d : Ranges m) where
  pub insert_sorted-All :
      (P : m.Entry → Type 0) (e : m.Entry) (es : List m.Entry)
      → P e
      → All P es
      → All P (insert_sorted d e es)
  unfolding insert_sorted
  insert_sorted-All P e [] p h = (p, tt)
  insert_sorted-All P e (x ∷ xs) p h =
      if_cases (All P) (sortable_le d e x) (λ _. (p, h))
        (λ _. (h.0, insert_sorted-All P e xs p h.1))

  pub sort_entries-All :
      (P : m.Entry → Type 0) (es : List m.Entry) → All P es → All P (sort_entries d es)
  unfolding sort_entries
  sort_entries-All P [] h = tt
  sort_entries-All P (e ∷ es) h =
      insert_sorted-All P e (sort_entries d es) h.0 (sort_entries-All P es h.1)

  length-insert_sorted :
      (e : m.Entry) (es : List m.Entry) → length (insert_sorted d e es) ≡ suc (length es)
  unfolding insert_sorted
  length-insert_sorted e [] = refl
  length-insert_sorted e (x ∷ xs) = ground (arith, length-insert_sorted e xs)

  pub length-sort_entries : (es : List m.Entry) → length (sort_entries d es) ≡ length es
  unfolding sort_entries
  length-sort_entries [] = refl
  length-sort_entries (e ∷ es) =
      omega (arith, length-insert_sorted e (sort_entries d es), length-sort_entries es)

  -- Entries that a range includes.
  abbrev pub Included : Range3d d → m.Entry → Type 0
  Included r e = includes_entry d r e ≡ true

  kept-All :
      (r : Range3d d) (es : List m.AuthorisedEntry)
      → All (Included r) (map m.entry (keep (λ e. includes_entry d r (m.entry e)) es))
  kept-All r [] = tt
  kept-All r (e ∷ es) = elim (Bool-cases (includes_entry d r (m.entry e))) [
    | inl inside ↦ rw (inside) (inside, kept-All r es)
    | inr outside ↦ rw (outside) (kept-All r es)
  ]

  pub get_entries-All :
      (namespace : ℕ) (r : Range3d d) (s : EntryStore m)
      → All (Included r) (get_entries d namespace r s)
  unfolding get_entries get_authorised_entries
  get_entries-All namespace r s =
      kept-All r (elim (lookup namespace s.stores) as (λ _. List m.AuthorisedEntry) [
        | none ↦ []
        | some t ↦ t.entries
      ])

  module _ (laws : Laws d) (r : Range3d d) (mid : m.Entry) (here : Included r mid) where
    pub subspace_here : d.subspaces.includes r.subspaces (m.subspace_id mid) ≡ true
    unfolding includes_entry
    subspace_here = ground (arith, here)

    pub path_here : d.paths.includes r.paths (m.path mid) ≡ true
    unfolding includes_entry
    path_here = ground (arith, here)

    time_here : d.times.includes r.times (m.timestamp mid) ≡ true
    unfolding includes_entry
    time_here = ground (arith, here)

    abbrev pub low_subspaces : Range3d d
    low_subspaces = record r {
      subspaces =
          d.subspaces.new (d.subspaces.range_start r.subspaces)
            (d.subspaces.closed (m.subspace_id mid));
    }

    abbrev pub high_subspaces : Range3d d
    high_subspaces = record r {
      subspaces = d.subspaces.new (m.subspace_id mid) (d.subspaces.range_end r.subspaces);
    }

    same_false :
        d.subspaces.same (m.subspace_id mid) (d.subspaces.range_start r.subspaces) ≡ false
        → d.subspaces.same (d.subspaces.range_start r.subspaces) (m.subspace_id mid) ≡ false
    same_false e = ground (
      arith,
      e,
      laws.subspace_laws.same_decides (m.subspace_id mid) (d.subspaces.range_start r.subspaces),
      laws.subspace_laws.same_decides (d.subspaces.range_start r.subspaces) (m.subspace_id mid),
    )

    pub by_subspace_ok :
        d.subspaces.same (m.subspace_id mid) (d.subspaces.range_start r.subspaces) ≡ false
        → by_subspace d r mid ≡ ok (low_subspaces ∷ high_subspaces ∷ [])
    unfolding by_subspace
    by_subspace_ok e =
        rw
          (
            by_subspace,
            laws.subspace_laws.new_closed_lem (d.subspaces.range_start r.subspaces)
                (m.subspace_id mid)
                (start_le d.subspaces laws.subspace_laws r.subspaces (m.subspace_id mid)
                  subspace_here)
                (same_false e),
          )
          refl

    by_subspace-Partitions : Partitions d r (low_subspaces ∷ high_subspaces ∷ [])
    unfolding includes_entry
    by_subspace-Partitions =
        halves-Partitions d r low_subspaces high_subspaces
          (λ e. d.subspaces.le (m.subspace_id mid) (m.subspace_id e))
          (λ e. ground (
            arith,
            includes-lower d.subspaces laws.subspace_laws r.subspaces (m.subspace_id mid)
                (m.subspace_id e) subspace_here,
          ))
          (λ e. ground (
            arith,
            includes-upper d.subspaces laws.subspace_laws r.subspaces (m.subspace_id mid)
                (m.subspace_id e) subspace_here,
          ))

    by_path-Partitions : Partitions d r (by_path d r mid)
    unfolding includes_entry by_path
    by_path-Partitions =
        halves-Partitions d r _ _ (λ e. d.paths.le (m.path mid) (m.path e))
          (λ e. ground (
            arith,
            includes-lower d.paths laws.path_laws r.paths (m.path mid) (m.path e) path_here,
          ))
          (λ e. ground (
            arith,
            includes-upper d.paths laws.path_laws r.paths (m.path mid) (m.path e) path_here,
          ))

    by_time-Partitions : Partitions d r (by_time d r mid)
    unfolding includes_entry by_time
    by_time-Partitions =
        halves-Partitions d r _ _ (λ e. d.times.le (m.timestamp mid) (m.timestamp e))
          (λ e. ground (
            arith,
            includes-lower d.times laws.time_laws r.times (m.timestamp mid) (m.timestamp e)
                time_here,
          ))
          (λ e. ground (
            arith,
            includes-upper d.times laws.time_laws r.times (m.timestamp mid) (m.timestamp e)
                time_here,
          ))

    -- Splitting at an entry of the range does not panic, and its parts partition the range.
    pub ranges_at_ok :
        (parts : List (Range3d d)) × (ranges_at d r mid ≡ ok parts) × Partitions d r parts
    unfolding ranges_at
    ranges_at_ok =
        let P : Result (List (Range3d d)) → Type 0 =
          λ q. (parts : List (Range3d d)) × (q ≡ ok parts) × Partitions d r parts in
        if_cases P
          (not (d.subspaces.same (m.subspace_id mid) (d.subspaces.range_start r.subspaces)))
          (λ e. (
            low_subspaces ∷ high_subspaces ∷ [],
            by_subspace_ok (ground (arith, e)),
            by_subspace-Partitions,
          ))
          (λ _.
            if_cases P (not (d.paths.same (m.path mid) (d.paths.range_start r.paths)))
              (λ _. (by_path d r mid, refl, by_path-Partitions))
              (λ _. (by_time d r mid, refl, by_time-Partitions)))

  unfoldable pub parts_of : List (Range3d d × SplitAction Fingerprint) → List (Range3d d)
  parts_of ps = map (λ p. p.0) ps

  pub parts_of-with_fingerprints :
      (namespace : ℕ) (s : EntryStore m) (rs : List (Range3d d))
      → parts_of (with_fingerprints d namespace s rs) ≡ rs
  unfolding parts_of with_fingerprints
  parts_of-with_fingerprints namespace s [] = refl
  parts_of-with_fingerprints namespace s (r ∷ rs) =
      ap (λ q. r ∷ q) (parts_of-with_fingerprints namespace s rs)

  -- The middle one of the sorted entries, if there are more than fit.
  pub middle :
      (namespace : ℕ) (r : Range3d d) (config : SplitOpts) (s : EntryStore m)
      → leb (count d namespace r s) config.max_set_size ≡ false
      → (mid : m.Entry) × (get_elem?
            (sort_entries d (get_entries d namespace r s))
            (count d namespace r s / 2)
          ≡ some mid)
        × Included r mid
  unfolding count
  middle namespace r config s many =
      let es : List m.Entry = get_entries d namespace r s in
      get_elem?-All (Included r) (sort_entries d es) (length es / 2)
        (sort_entries-All (Included r) es (get_entries-All namespace r s))
        (omega (arith, length-sort_entries es, many_lem (length es) config.max_set_size many))

  split_many :
      Laws d
      → (namespace : ℕ) (r : Range3d d) (config : SplitOpts) (s : EntryStore m)
      → leb (count d namespace r s) config.max_set_size ≡ false
      → (parts : List (Range3d d × SplitAction Fingerprint)) × (after_split d namespace s (
            ranges_of d r (
              get_elem? (sort_entries d (get_entries d namespace r s)) (count d namespace r s / 2)))
          ≡ ok parts)
        × Partitions d r (parts_of parts)
  unfolding after_split ranges_of
  split_many laws namespace r config s many =
      let (mid, found, here) = middle namespace r config s many in
      let (rs, made, whole) = ranges_at_ok laws r mid here in
      (
        with_fingerprints d namespace s rs,
        ap (λ o. after_split d namespace s (ranges_of d r o)) found
            ∙ ap (after_split d namespace s) made,
        subst (Partitions d r) (sym (parts_of-with_fingerprints namespace s rs)) whole,
      )

  -- Splitting a range does not panic, and each entry of the range is in exactly one of the parts, and
  -- no other entry in any.
  pub split_range-Partitions :
      Laws d
      → (namespace : ℕ) (r : Range3d d) (config : SplitOpts) (s : EntryStore m)
      → (parts : List (Range3d d × SplitAction Fingerprint)) × (split_range d namespace r config s
          ≡ ok parts)
        × Partitions d r (parts_of parts)
  unfolding split_range parts_of covers
  split_range-Partitions laws namespace r config s =
      let P : Result (List (Range3d d × SplitAction Fingerprint)) → Type 0 = λ q.
        (parts : List (Range3d d × SplitAction Fingerprint)) × (q ≡ ok parts)
        × Partitions d r (parts_of parts) in
      if_cases P (leb (count d namespace r s) config.max_set_size)
        (λ _. ((r, split_entries (count d namespace r s)) ∷ [], refl, λ e. omega arith))
        (λ many. split_many laws namespace r config s many)
