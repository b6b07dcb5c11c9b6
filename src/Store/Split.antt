-- ===== src/Store/Split.antt =====
-- The provided methods of `EntryReader` in src/store/traits.rs, over the in-memory store: counting,
-- fingerprints and the splitting of a range. A failed `unwrap` or `expect` is `panicked`. Reading
-- entries does not fail.
pub mod Halves
pub mod Partition
pub mod Toy
mod Tests
pub mod Sorting
pub mod Times
pub mod Fingerprints
use iroh_willow.Prelude.{
  ℕ, ◌/◌, ◌==◌, ltb, leb, Bool, true, false, ◌&&◌, ◌||◌, not, Option, none, some, List, [], ◌∷◌,
  map, length, get_elem?, if◌then◌else◌,
}
use iroh_willow.Model.{DataModel}
use iroh_willow.Session.Error.{Result, ok, err, panicked}
use iroh_willow.Session.Storage.{SplitAction, split_fingerprint, split_entries}
use iroh_willow.Store.Memory.{EntryStore, get_authorised_entries}
use iroh_willow.Store.Ranges.{RangeType, Ranges}
use iroh_willow.Store.Fingerprint.{Fingerprint, add_entry, add_entries, default_fingerprint}

-- `Range3d`: the library's, the product of three ranges.
pub record Range3d {m : DataModel} (d : Ranges m) : Type 0 where
  pub subspaces : d.subspaces.Range
  pub paths : d.paths.Range
  pub times : d.times.Range

pub record SplitOpts : Type 0 where
  pub max_set_size : ℕ
  pub split_factor : ℕ

unfoldable pub default_opts : SplitOpts
default_opts = record { max_set_size = 1; split_factor = 2 }

module _ {m : DataModel} (d : Ranges m) where
  unfoldable pub includes_entry : Range3d d → m.Entry → Bool
  includes_entry r e =
      d.subspaces.includes r.subspaces (m.subspace_id e)
      && d.paths.includes r.paths (m.path e)
      && d.times.includes r.times (m.timestamp e)

  unfoldable pub get_entries : ℕ → Range3d d → EntryStore m → List m.Entry
  get_entries namespace r s = map m.entry (get_authorised_entries m namespace (includes_entry r) s)

  unfoldable pub count : ℕ → Range3d d → EntryStore m → ℕ
  count namespace r s = length (get_entries namespace r s)

  unfoldable pub fingerprint : ℕ → Range3d d → EntryStore m → Fingerprint
  fingerprint namespace r s = add_entries d default_fingerprint (get_entries namespace r s)

  -- The order of `as_sortable_tuple`: by namespace, then subspace, then path.
  unfoldable pub sortable_le : m.Entry → m.Entry → Bool
  sortable_le a b =
      if not (m.namespace_id a == m.namespace_id b)
      then leb (m.namespace_id a) (m.namespace_id b)
      else if not (d.subspaces.same (m.subspace_id a) (m.subspace_id b))
      then d.subspaces.le (m.subspace_id a) (m.subspace_id b)
      else d.paths.le (m.path a) (m.path b)

  unfoldable pub insert_sorted : m.Entry → List m.Entry → List m.Entry
  insert_sorted e [] = e ∷ []
  insert_sorted e (x ∷ xs) = if sortable_le e x then e ∷ x ∷ xs else x ∷ insert_sorted e xs

  unfoldable pub sort_entries : List m.Entry → List m.Entry
  sort_entries [] = []
  sort_entries (e ∷ es) = insert_sorted e (sort_entries es)

  -- The two parts of a range at an entry; the unwrap of `new_closed` may panic.
  unfoldable pub by_subspace : Range3d d → m.Entry → Result (List (Range3d d))
  by_subspace r mid =
      elim (d.subspaces.new_closed (d.subspaces.range_start r.subspaces) (m.subspace_id mid)) [
        | none ↦ panicked
        | some low ↦ ok (
            record r { subspaces = low }
            ∷ record r {
              subspaces = d.subspaces.new (m.subspace_id mid) (d.subspaces.range_end r.subspaces);
            }
            ∷ [])
      ]

  unfoldable pub by_path : Range3d d → m.Entry → List (Range3d d)
  by_path r mid =
      record r { paths = d.paths.new (d.paths.range_start r.paths) (d.paths.closed (m.path mid)) }
      ∷ record r { paths = d.paths.new (m.path mid) (d.paths.range_end r.paths) }
      ∷ []

  unfoldable pub by_time : Range3d d → m.Entry → List (Range3d d)
  by_time r mid =
      record r {
        times = d.times.new (d.times.range_start r.times) (d.times.closed (m.timestamp mid));
      }
      ∷ record r { times = d.times.new (m.timestamp mid) (d.times.range_end r.times) }
      ∷ []

  unfoldable pub ranges_at : Range3d d → m.Entry → Result (List (Range3d d))
  ranges_at r mid =
      if not (d.subspaces.same (m.subspace_id mid) (d.subspaces.range_start r.subspaces))
      then by_subspace r mid
      else if not (d.paths.same (m.path mid) (d.paths.range_start r.paths))
      then ok (by_path r mid)
      else ok (by_time r mid)

  unfoldable pub ranges_of : Range3d d → Option m.Entry → Result (List (Range3d d))
  ranges_of r none = panicked
  ranges_of r (some mid) = ranges_at r mid

  unfoldable pub with_fingerprints :
      ℕ → EntryStore m → List (Range3d d) → List (Range3d d × SplitAction Fingerprint)
  with_fingerprints namespace s rs =
      map (λ r. (r, split_fingerprint (fingerprint namespace r s))) rs

  unfoldable pub after_split :
      ℕ
      → EntryStore m
      → Result (List (Range3d d))
      → Result (List (Range3d d × SplitAction Fingerprint))
  after_split namespace s (ok rs) = ok (with_fingerprints namespace s rs)
  after_split namespace s (err e) = err e
  after_split namespace s panicked = panicked

  unfoldable pub split_range :
      ℕ → Range3d d → SplitOpts → EntryStore m → Result (List (Range3d d × SplitAction Fingerprint))
  split_range namespace r config s =
      let n = count namespace r s in
      if leb n config.max_set_size
      then ok ((r, split_entries n) ∷ [])
      else after_split namespace s
          (ranges_of r (get_elem? (sort_entries (get_entries namespace r s)) (n / 2)))
