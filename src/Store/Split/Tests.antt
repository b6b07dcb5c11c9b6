-- ===== src/Store/Split/Tests.antt =====
-- Splitting of ranges at concrete inputs.
use iroh_willow.Prelude.{◌≡◌, refl, none, some, List, [], ◌∷◌, map, All, arith}
use mathlib.Core.List.{Permᴰ}
use iroh_willow.Model.Toy.{toy, ToyEntry, at_path}
use iroh_willow.Session.Error.{Result, ok, err, panicked}
use iroh_willow.Session.Storage.{SplitAction}
use iroh_willow.Store.Memory.{EntryStore, get_authorised_entries}
use iroh_willow.Store.Fingerprint.{
  Fingerprint, zeros, default_fingerprint, xor_bit, bitxor_assign, combine, add_entry, add_entries,
  from_entries,
}
use iroh_willow.Store.Fingerprint.Sums.{from_entries-Perm}
use iroh_willow.Store.Split.{
  Range3d, default_opts, includes_entry, get_entries, count, fingerprint, sortable_le,
  insert_sorted, sort_entries, by_subspace, by_path, by_time, ranges_at, ranges_of,
  with_fingerprints, after_split, split_range,
}
use iroh_willow.Store.Split.Halves.{covers, Partitions}
use iroh_willow.Store.Split.Partition.{parts_of, split_range-Partitions}
use iroh_willow.Store.Split.Fingerprints.{carried, split_range_fingerprints}
use iroh_willow.Store.Split.Times.{split_range_keeps_times}
use iroh_willow.Store.Split.Toy.{toy_ranges, toy_ranges-Laws}

program : Unit {0}
unfolding get_authorised_entries zeros default_fingerprint xor_bit bitxor_assign combine add_entry
    add_entries from_entries default_opts includes_entry get_entries count fingerprint sortable_le
    insert_sorted sort_entries by_subspace by_path by_time ranges_at ranges_of with_fingerprints
    after_split split_range covers parts_of carried
program = tt

abbrev store : EntryStore toy
store = record {
  stores =
      (
        0,
        record {
          entries = at_path (3 ∷ []) 9 ∷ at_path (1 ∷ 2 ∷ []) 5 ∷ at_path (1 ∷ 3 ∷ []) 5 ∷ [];
          events = record { events = []; offset = 0; wakers = [] };
        },
      )
      ∷ [];
}

-- From subspace 1, the empty path and time 0 on.
abbrev full : Range3d toy_ranges
full = record { subspaces = (1, none); paths = ([], none); times = (0, none) }

abbrev low : Range3d toy_ranges
low = record full { paths = ([], some (1 ∷ 3 ∷ [])) }

abbrev high : Range3d toy_ranges
high = record full { paths = (1 ∷ 3 ∷ [], none) }

abbrev parts_in :
    Result (List (Range3d toy_ranges × SplitAction Fingerprint)) → List (Range3d toy_ranges)
parts_in (ok ps) = map (λ p. p.0) ps
parts_in (err _) = []
parts_in panicked = []

-- Of the three entries the second one in order is at path 1/3.
full-split : parts_in (split_range toy_ranges 0 full default_opts store) ≡ low ∷ high ∷ []
unfolding program
full-split = refl

split_range-Partitions_example :
    (parts : List (Range3d toy_ranges × SplitAction Fingerprint)) × (split_range toy_ranges 0 full
        default_opts store
      ≡ ok parts)
    × Partitions toy_ranges full (parts_of toy_ranges parts)
split_range-Partitions_example =
    split_range-Partitions toy_ranges toy_ranges-Laws 0 full default_opts store

split_range_fingerprints_example :
    (parts : List (Range3d toy_ranges × SplitAction Fingerprint)) × (split_range toy_ranges 0 full
        default_opts store
      ≡ ok parts)
    × (carried toy_ranges 0 store parts ≡ fingerprint toy_ranges 0 full store)
split_range_fingerprints_example =
    split_range_fingerprints toy_ranges toy_ranges-Laws 0 full default_opts store

split_range_keeps_times_example :
    (parts : List (Range3d toy_ranges × SplitAction Fingerprint)) × (split_range toy_ranges 0 full
        default_opts store
      ≡ ok parts)
    × All (λ p. p.times ≡ full.times) (parts_of toy_ranges parts)
unfolding program
split_range_keeps_times_example =
    split_range_keeps_times toy_ranges toy_ranges-Laws 0 full default_opts store
      (refl, (refl, (refl, tt))) ((refl, (refl, tt)), ((refl, tt), (tt, tt))) (omega arith)

abbrev one_order : List ToyEntry
one_order = at_path (3 ∷ []) 9 ∷ at_path (1 ∷ []) 5 ∷ []

abbrev other_order : List ToyEntry
other_order = at_path (1 ∷ []) 5 ∷ at_path (3 ∷ []) 9 ∷ []

from_entries-Perm_example : from_entries toy_ranges one_order ≡ from_entries toy_ranges other_order
from_entries-Perm_example =
    from_entries-Perm toy_ranges toy_ranges-Laws one_order other_order ∣ Permᴰ.swap refl refl ∣₁
