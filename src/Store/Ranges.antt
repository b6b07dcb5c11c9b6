-- ===== src/Store/Ranges.antt =====
-- Ranges of the library willow_data_model, which is not part of the repository, as a parameter: the
-- ranges of one kind of coordinate, and those of the three coordinates of an entry. What the
-- theorems rely on is the record RangeLaws. Also the fingerprint of one entry, a hash.
use iroh_willow.Prelude.{ℕ, ◌≡◌, ◌↔◌, ◌⊎◌, Bool, true, false, ◌&&◌, not, Option, some, List, length}
use iroh_willow.Model.{DataModel}

pub record RangeType (Point : Type 0) : Type 1 where
  pub Range : Type 0
  pub RangeEnd : Type 0
  -- `Ord` and `PartialEq` of the points.
  pub le : Point → Point → Bool
  pub same : Point → Point → Bool
  pub range_start : Range → Point
  pub range_end : Range → RangeEnd
  -- `RangeEnd::Closed`, `Range::new`, `Range::new_closed`, `Range::includes`.
  pub closed : Point → RangeEnd
  pub new : Point → RangeEnd → Range
  pub new_closed : Point → Point → Option Range
  pub includes : Range → Point → Bool
  -- Whether a point is below an end.
  pub below : Point → RangeEnd → Bool

-- The order is total, a range includes its start and what lies between its start and its end, and
-- a closed range can be made if its end is greater than its start.
pub record RangeLaws {Point : Type 0} (r : RangeType Point) : Type 0 where
  pub le_total : (a b : Point) → (r.le a b ≡ true) ⊎ (r.le b a ≡ true)
  pub le_trans : (a b c : Point) → r.le a b ≡ true → r.le b c ≡ true → r.le a c ≡ true
  pub le_antisym : (a b : Point) → r.le a b ≡ true → r.le b a ≡ true → a ≡ b
  pub same_decides : (a b : Point) → (r.same a b ≡ true) ↔ (a ≡ b)
  pub includes_lem :
      (s : r.Range) (p : Point)
      → r.includes s p ≡ (r.le (r.range_start s) p && r.below p (r.range_end s))
  pub start-new : (a : Point) (e : r.RangeEnd) → r.range_start (r.new a e) ≡ a
  pub end-new : (a : Point) (e : r.RangeEnd) → r.range_end (r.new a e) ≡ e
  pub below-closed : (p a : Point) → r.below p (r.closed a) ≡ not (r.le a p)
  pub below_down :
      (p q : Point) (e : r.RangeEnd) → r.le p q ≡ true → r.below q e ≡ true → r.below p e ≡ true
  pub new_closed_lem :
      (a b : Point)
      → r.le a b ≡ true
      → r.same a b ≡ false
      → r.new_closed a b ≡ some (r.new a (r.closed b))

pub record Ranges (m : DataModel) : Type 1 where
  pub subspaces : RangeType ℕ
  pub paths : RangeType m.EntryPath
  pub times : RangeType ℕ
  -- `Fingerprint::lift_entry`, as the bits of its 32 bytes.
  pub lift_entry : m.Entry → List Bool

pub record Laws {m : DataModel} (d : Ranges m) : Type 0 where
  pub subspace_laws : RangeLaws d.subspaces
  pub path_laws : RangeLaws d.paths
  pub time_laws : RangeLaws d.times
  pub lift_size : (e : m.Entry) → length (d.lift_entry e) ≡ 256
