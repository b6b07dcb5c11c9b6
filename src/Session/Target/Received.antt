-- ===== src/Session/Target/Received.antt =====
-- Receiving a fingerprint and receiving an announcement, on every branch.
use iroh_willow.Prelude.{ℕ, ◌+◌, ◌^◌, ◌<◌, ◌≡◌, Bool, true, false, Option, [], length}
use iroh_willow.Session.Error.{Error}
use iroh_willow.Session.Storage.{Storage}
use iroh_willow.Session.Target.{Target, Sent, is_nil}
use iroh_willow.Session.Target.Answers.{without, Answers}

module _ {S : Storage} where
  -- Both counters have room for the answer to a fingerprint of a range, which splits into at least
  -- one part.
  pub record HasRoom (range : S.Range) (t : Target S) : Type 0 where
    pub splits : is_nil (S.split_range t.intersection.namespace range) ≡ false
    pub ours :
        t.our_range_counter + 1 + length (S.split_range t.intersection.namespace range) < 2 ^ 64
    pub theirs : t.their_range_counter + 1 < 2 ^ 64

  -- What an announcement that wants a response, or none, leaves.
  abbrev pub Announced : Bool → Option ℕ → Target S → Sent S → Type 0
  Announced true covers t out = Answers (without covers t.our_uncovered_ranges) t out
  Announced false covers t out =
      (out.messages ≡ [])
      × (out.target.our_uncovered_ranges ≡ without covers t.our_uncovered_ranges)
      × (out.target.their_range_counter ≡ t.their_range_counter)
