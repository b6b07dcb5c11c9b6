-- ===== src/Session/Toy.antt =====
-- A concrete storage, for runs of a session.
use iroh_willow.Prelude.{ℕ, ◌+◌, true, some, [], ◌∷◌, ◌==◌}
use iroh_willow.Session.Storage.{Storage, split_fingerprint, split_entries}
use iroh_willow.Session.StaticTokens.{Tokens}
use iroh_willow.Session.Target.{AoiIntersection, Target}

-- Every part is a number; a range is its own fingerprint, splits in two, and holds two entries with
-- one static token, each with a payload of two chunks.
abbrev pub toy : Storage
toy = record {
  Namespace = ℕ;
  Area = ℕ;
  Range = ℕ;
  Fingerprint = ℕ;
  Entry = ℕ;
  Digest = ℕ;
  StaticToken = ℕ;
  DynamicToken = ℕ;
  to_range = λ a. a;
  fingerprint = λ n r. r;
  same_fingerprint = ◌==◌;
  is_empty_fingerprint = λ f. f == 0;
  split_range = λ n r. (r, split_fingerprint 7) ∷ (r + 1, split_entries 2) ∷ [];
  get_authorised_entries = λ n r. (r, 1, 2) ∷ (r + 1, 1, 3) ∷ [];
  payload_digest = λ e. e;
  payload_length = λ e. 2;
  payload_chunks = λ d. some ((d ∷ []) ∷ (0 ∷ []) ∷ []);
  same_token = ◌==◌;
  authorises = λ e s d. true;
  takes_chunk = λ d total offset chunks. true;
  imports = λ d total offset chunks. true;
}

abbrev pub tokens : Tokens toy
tokens = record {
  ours = record { next_handle = 0; map = []; wakers = [] };
  theirs = record { next_handle = 0; map = []; wakers = [] };
}

abbrev pub intersection : AoiIntersection toy
intersection = record { our_handle = 4; their_handle = 6; area = 10; namespace = 0 }

-- Two ranges are pending.
abbrev pub target : Target toy
target = record {
  intersection = intersection;
  our_uncovered_ranges = 1 ∷ 0 ∷ [];
  started = true;
  our_range_counter = 2;
  their_range_counter = 5;
}
