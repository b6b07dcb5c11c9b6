-- ===== src/Store/Split/Times.antt =====
-- When src/store/traits.rs splits a range by time.
use iroh_willow.Prelude.{
  ℕ, suc, ◌-◌, ◌/◌, ◌≤◌, ◌==◌, ◌≡◌, refl, ap, sym, subst, ◌∙◌, Bool, true, false, not, leb,
  if_cases, arith, List, [], ◌∷◌, length, get_elem?, All, some, ==_iff,
}
use iroh_willow.Model.{DataModel}
use iroh_willow.Session.Error.{Result, ok}
use iroh_willow.Session.Storage.{SplitAction, split_entries}
use iroh_willow.Store.Memory.{EntryStore}
use iroh_willow.Store.Ranges.{Ranges, Laws}
use iroh_willow.Store.Fingerprint.{Fingerprint}
use iroh_willow.Store.Split.{
  Range3d, SplitOpts, get_entries, count, sortable_le, sort_entries, by_path, ranges_at, ranges_of,
  with_fingerprints, after_split, split_range,
}
use iroh_willow.Store.Split.Halves.{start_le}
use iroh_willow.Store.Split.Partition.{
  get_elem?-All, many_lem, Included, parts_of, parts_of-with_fingerprints, get_entries-All,
  sort_entries-All, low_subspaces, high_subspaces, by_subspace_ok, subspace_here, path_here,
  length-sort_entries,
}
use iroh_willow.Store.Split.Sorting.{
  same_place, Apart, Sorted, before, sort_entries-Sorted, sort_entries-Apart,
}

never {ℓ} : {A : Type ℓ} → true ≡ false → A
never e = absurd (ground (arith, e))

module _ {m : DataModel} (d : Ranges m) (laws : Laws d) (namespace : ℕ) (r : Range3d d) where
  -- An entry of the range, of the namespace.
  Here : m.Entry → Type 0
  Here e = Included d r e × (m.namespace_id e ≡ namespace)

  -- The middle entry is not the least place of the range if another one comes before it.
  not_least :
      (a mid : m.Entry)
      → sortable_le d a mid ≡ true
      → same_place d a mid ≡ false
      → Here a
      → Here mid
      → d.subspaces.same (m.subspace_id mid) (d.subspaces.range_start r.subspaces) ≡ true
      → d.paths.same (m.path mid) (d.paths.range_start r.paths) ≡ true
      → true ≡ false
  unfolding sortable_le Here
  not_least a mid le apart a_here mid_here sub path =
      let start = d.subspaces.range_start r.subspaces in
      let start_path = d.paths.range_start r.paths in
      let mid_sub : m.subspace_id mid ≡ start =
        (laws.subspace_laws.same_decides (m.subspace_id mid) start).0 sub in
      let mid_path : m.path mid ≡ start_path =
        (laws.path_laws.same_decides (m.path mid) start_path).0 path in
      let above : d.subspaces.le (m.subspace_id mid) (m.subspace_id a) ≡ true =
        subst (λ q. d.subspaces.le q (m.subspace_id a) ≡ true) (sym mid_sub)
          (start_le d.subspaces laws.subspace_laws r.subspaces (m.subspace_id a)
            (subspace_here d laws r a a_here.0)) in
      let above_path : d.paths.le (m.path mid) (m.path a) ≡ true =
        subst (λ q. d.paths.le q (m.path a) ≡ true) (sym mid_path)
          (start_le d.paths laws.path_laws r.paths (m.path a) (path_here d laws r a a_here.0)) in
      let spaces : (m.namespace_id a == m.namespace_id mid) ≡ true =
        (==_iff (m.namespace_id a) (m.namespace_id mid)).1 (a_here.1 ∙ sym mid_here.1) in
      ground (
        arith,
        spaces,
        le,
        apart,
        above,
        above_path,
        laws.subspace_laws.le_antisym (m.subspace_id a) (m.subspace_id mid),
        laws.path_laws.le_antisym (m.path a) (m.path mid),
        laws.subspace_laws.same_decides (m.subspace_id a) (m.subspace_id mid),
        laws.path_laws.same_decides (m.path a) (m.path mid),
      )

  Kept : Result (List (Range3d d)) → Type 0
  Kept q = (parts : List (Range3d d)) × (q ≡ ok parts) × All (λ p. p.times ≡ r.times) parts

  ranges_at-Kept :
      (a mid : m.Entry)
      → sortable_le d a mid ≡ true
      → same_place d a mid ≡ false
      → Here a
      → Here mid
      → Kept (ranges_at d r mid)
  unfolding ranges_at by_path Kept Here
  ranges_at-Kept a mid le apart a_here mid_here =
      let sub : Bool = d.subspaces.same (m.subspace_id mid) (d.subspaces.range_start r.subspaces) in
      let path : Bool = d.paths.same (m.path mid) (d.paths.range_start r.paths) in
      if_cases Kept (not sub)
        (λ e. (
          low_subspaces d laws r mid mid_here.0 ∷ high_subspaces d laws r mid mid_here.0 ∷ [],
          by_subspace_ok d laws r mid mid_here.0 (ground (arith, e)),
          (refl, (refl, tt)),
        ))
        (λ e.
          if_cases Kept (not path) (λ _. (by_path d r mid, refl, (refl, (refl, tt))))
            (λ f.
              never
                (not_least a mid le apart a_here mid_here (ground (arith, e)) (ground (arith, f)))))

  before_in :
      (es : List m.Entry) (i : ℕ) (b : m.Entry)
      → Sorted d es
      → Apart d es
      → All Here es
      → get_elem? es (suc i) ≡ some b
      → (a : m.Entry) × (sortable_le d a b ≡ true) × (same_place d a b ≡ false) × Here a
  before_in [] i b s a h e = ground arith
  before_in (p ∷ xs) i b s a h e = before d Here p xs i b s a h e

  split-Kept :
      (config : SplitOpts) (s : EntryStore m)
      → All Here (get_entries d namespace r s)
      → Apart d (get_entries d namespace r s)
      → 1 ≤ config.max_set_size
      → leb (count d namespace r s) config.max_set_size ≡ false
      → Kept (
          ranges_of d r
            (get_elem? (sort_entries d (get_entries d namespace r s)) (count d namespace r s / 2)))
  unfolding count ranges_of
  split-Kept config s here apart room many =
      let es : List m.Entry = get_entries d namespace r s in
      let sorted : List m.Entry = sort_entries d es in
      let sorted_here : All Here sorted = sort_entries-All d Here es here in
      let (mid, found, mid_here) =
        get_elem?-All Here sorted (length es / 2) sorted_here (
          omega (arith, length-sort_entries d es, many_lem (length es) config.max_set_size many)) in
      let index : length es / 2 ≡ suc (length es / 2 - 1) =
        omega (arith, many_lem (length es) config.max_set_size many, room) in
      let (a, le, other, a_here) =
        before_in sorted (length es / 2 - 1) mid (sort_entries-Sorted d laws es)
          (sort_entries-Apart d laws es apart) sorted_here
          (ap (get_elem? sorted) (sym index) ∙ found) in
      subst Kept (ap (ranges_of d r) (sym found)) (ranges_at-Kept a mid le other a_here mid_here)

  All-Here :
      (es : List m.Entry)
      → All (Included d r) es
      → All (λ e. m.namespace_id e ≡ namespace) es
      → All Here es
  unfolding Here
  All-Here [] f g = tt
  All-Here (e ∷ es) f g = ((f.0, g.0), All-Here es f.1 g.1)

  after_split-Kept :
      (s : EntryStore m) (q : Result (List (Range3d d)))
      → Kept q
      → (parts : List (Range3d d × SplitAction Fingerprint)) × (after_split d namespace s q
          ≡ ok parts)
        × All (λ p. p.times ≡ r.times) (parts_of d parts)
  unfolding after_split Kept
  after_split-Kept s q kept =
      let (rs, made, same) = kept in
      (
        with_fingerprints d namespace s rs,
        ap (after_split d namespace s) made,
        subst (All (λ p. p.times ≡ r.times)) (sym (parts_of-with_fingerprints d namespace s rs))
            same,
      )

  -- A store in which no two entries of the range are at one place never splits the range by time, if
  -- one entry fits into a message: the parts of the range have its times.
  pub split_range_keeps_times :
      (config : SplitOpts) (s : EntryStore m)
      → All (λ e. m.namespace_id e ≡ namespace) (get_entries d namespace r s)
      → Apart d (get_entries d namespace r s)
      → 1 ≤ config.max_set_size
      → (parts : List (Range3d d × SplitAction Fingerprint)) × (split_range d namespace r config s
          ≡ ok parts)
        × All (λ p. p.times ≡ r.times) (parts_of d parts)
  unfolding split_range parts_of
  split_range_keeps_times config s spaces apart room =
      let P : Result (List (Range3d d × SplitAction Fingerprint)) → Type 0 = λ q.
        (parts : List (Range3d d × SplitAction Fingerprint)) × (q ≡ ok parts)
        × All (λ p. p.times ≡ r.times) (parts_of d parts) in
      if_cases P (leb (count d namespace r s) config.max_set_size)
        (λ _. ((r, split_entries (count d namespace r s)) ∷ [], refl, (refl, tt)))
        (λ many.
          after_split-Kept s
            (ranges_of d r (
              get_elem? (sort_entries d (get_entries d namespace r s)) (count d namespace r s / 2)))
            (split-Kept config s
              (All-Here (get_entries d namespace r s) (get_entries-All d namespace r s) spaces)
              apart room many))
