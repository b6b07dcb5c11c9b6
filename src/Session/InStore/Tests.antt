-- ===== src/Session/InStore/Tests.antt =====
-- A target over a concrete store.
use iroh_willow.Prelude.{ℕ, ◌≡◌, refl, true, false, none, some, List, [], ◌∷◌}
use iroh_willow.Model.Toy.{toy, at_path}
use iroh_willow.Session.Error.{OnOk, Result, ok, err, panicked}
use iroh_willow.Session.StaticTokens.{Tokens}
use iroh_willow.Session.Target.{
  Target, Sent, is_nil, received_send_fingerprint, answer_fingerprint, cover,
  next_range_count_theirs, send_parts, send_part, send_range_fingerprint,
  mark_our_next_range_pending, insert_number, announce_and_send_entries,
}
use iroh_willow.Store.Memory.{EntryStore, get_authorised_entries}
use iroh_willow.Store.Fingerprint.{
  zeros, default_fingerprint, xor_bit, bitxor_assign, add_entry, add_entries, same_bits,
  is_empty_fingerprint,
}
use iroh_willow.Store.Split.{
  Range3d, default_opts, includes_entry, get_entries, count, fingerprint, sortable_le,
  insert_sorted, sort_entries, by_subspace, by_path, by_time, ranges_at, ranges_of,
  with_fingerprints, after_split, split_range,
}
use iroh_willow.Store.Split.Halves.{Partitions}
use iroh_willow.Store.Split.Toy.{toy_ranges, toy_ranges-Laws}
use iroh_willow.Session.InStore.{Outside, storage_of, parts_or_none}
use iroh_willow.Session.InStore.Coverage.{ranges_in, answer-Partitions}

program : Unit {0}
unfolding get_authorised_entries zeros default_fingerprint xor_bit bitxor_assign add_entry
    add_entries same_bits is_empty_fingerprint default_opts includes_entry get_entries count
    fingerprint sortable_le insert_sorted sort_entries by_subspace by_path by_time ranges_at
    ranges_of with_fingerprints after_split split_range parts_or_none ranges_in is_nil
    received_send_fingerprint answer_fingerprint cover next_range_count_theirs send_parts send_part
    send_range_fingerprint mark_our_next_range_pending insert_number announce_and_send_entries
program = tt

abbrev full : Range3d toy_ranges
full = record { subspaces = (1, none); paths = ([], none); times = (0, none) }

abbrev outside : Outside toy_ranges
outside = record {
  StaticToken = ℕ;
  DynamicToken = ℕ;
  tokens_of = λ e. (0, 0);
  to_range = λ a. full;
  payload_chunks = λ digest. none;
  same_token = λ a b. true;
  authorises = λ e a b. true;
  takes_chunk = λ d l o chunks. false;
  imports = λ d l o chunks. true;
}

abbrev store : EntryStore toy
store = record {
  stores =
      (
        0,
        record {
          entries = at_path (3 ∷ []) 9 ∷ at_path (1 ∷ []) 5 ∷ [];
          events = record { events = []; offset = 0; wakers = [] };
        },
      )
      ∷ [];
}

abbrev tokens : Tokens (storage_of toy_ranges outside default_opts store)
tokens = record {
  ours = record { map = []; next_handle = 0; wakers = [] };
  theirs = record { map = []; next_handle = 0; wakers = [] };
}

abbrev target : Target (storage_of toy_ranges outside default_opts store)
target = record {
  intersection = record {
    our_handle = 0;
    their_handle = 0;
    area = record { subspace = 1; path = [] };
    namespace = 0;
  };
  our_uncovered_ranges = [];
  started = false;
  our_range_counter = 0;
  their_range_counter = 0;
}

answer-Partitions_example :
    OnOk
      (λ out. Partitions toy_ranges full (ranges_in out.messages))
      (received_send_fingerprint 0 full (true ∷ []) none tokens target)
answer-Partitions_example =
    answer-Partitions toy_ranges toy_ranges-Laws outside default_opts store 0 full (true ∷ []) none
      tokens target

abbrev ranges_sent :
    Result (Sent (storage_of toy_ranges outside default_opts store)) → List (Range3d toy_ranges)
ranges_sent (ok out) = ranges_in out.messages
ranges_sent (err _) = []
ranges_sent panicked = []

-- The fingerprints differ: two fingerprints are sent, of the paths before and from path 3.
answer-ranges :
    ranges_sent (received_send_fingerprint 0 full (true ∷ []) none tokens target)
    ≡ record full { paths = ([], some (3 ∷ [])) } ∷ record full { paths = (3 ∷ [], none) } ∷ []
unfolding program
answer-ranges = refl
