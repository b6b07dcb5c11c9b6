-- ===== src/Session/Reconciler/Entries.antt =====
-- Receiving the entries that a target sends (src/session/reconciler.rs), with their tokens and payloads.
use iroh_willow.Prelude.{ℕ, Bool, true, false, none, some, List, [], ◌∷◌}
use iroh_willow.Session.Error.{Result, ok, err, panicked}
use iroh_willow.Session.Resource.{PollResource, ready, pending}
use iroh_willow.Session.Challenge.{Role}
use iroh_willow.Session.Payload.{TargetId, EntryState}
use iroh_willow.Session.StaticTokens.{Tokens, bind_theirs}
use iroh_willow.Session.Storage.{Storage, Message, bind_static_token}
use iroh_willow.Session.Target.{Target}
use iroh_willow.Session.Target.Delivery.{waiting}
use iroh_willow.Session.Reconciler.{Reconciler, complete_entries, received_message}

abbrev pub Outcome : Storage → Type 0
Outcome S = PollResource (Result (Reconciler S))

module _ {S : Storage} (role : Role) (max_eager max_eager_sent waker : ℕ) where
  -- A static token comes on a channel of its own, every other message to the reconciler.
  abbrev pub receive_one : Message S → Reconciler S → Outcome S
  receive_one (bind_static_token static) r =
      ready (ok (record r { tokens = (bind_theirs static r.tokens).1 }))
  receive_one m r = received_message role max_eager waker m r

  abbrev pub and_receive : Outcome S → (Reconciler S → Outcome S) → Outcome S
  and_receive (ready (ok r)) next = next r
  and_receive (ready (err e)) next = ready (err e)
  and_receive (ready panicked) next = ready panicked
  and_receive pending next = pending

  abbrev pub receive_all : List (Message S) → Reconciler S → Outcome S
  receive_all [] r = ready (ok r)
  receive_all (m ∷ ms) r = and_receive (receive_one m r) (receive_all ms)

  module _ (r : Reconciler S) (i : TargetId) where
    abbrev at :
        EntryState S → Tokens S → List (S.Entry × S.StaticToken × S.DynamicToken) → Reconciler S
    at e tokens ingested = record r { entry_state = e; tokens = tokens; ingested = ingested }

    -- What the end of a payload leads to.
    abbrev after_end : Tokens S → List (S.Entry × S.StaticToken × S.DynamicToken) → Bool → Outcome S
    after_end tokens done true = ready (complete_entries (some i) (at none tokens done))
    after_end tokens done false = ready (ok (at (waiting i) tokens done))
