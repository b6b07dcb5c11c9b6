-- ===== src/Session/Target/Delivery.antt =====
-- The states of a receiver that awaits entries and payloads, and what its import has to accept.
use iroh_willow.Prelude.{ℕ, ◌≡◌, true, Option, none, some, List, ◌∷◌, ◌++◌}
use iroh_willow.Session.Payload.{CurrentPayloadInner, EntryState, TargetId}
use iroh_willow.Session.Storage.{Storage, Bytes}

-- The receiver's import takes the chunks of a stored payload one after the other, and succeeds with
-- all of them.
abbrev pub ImportsPayloads : Storage → Type 0
ImportsPayloads S =
    (d : S.Digest) (total : ℕ) (chunks : List Bytes)
    → S.payload_chunks d ≡ some chunks
    → ((pre : List Bytes) (c : Bytes) (suf : List Bytes)
        → pre ++ c ∷ suf ≡ chunks
        → S.takes_chunk d total 0 pre ≡ true)
      × (S.imports d total 0 chunks ≡ true)

module _ {S : Storage} where
  abbrev pub waiting : TargetId → EntryState S
  waiting target = some (record { target = target; current_payload = none })

  abbrev receiving : S.Digest → ℕ → ℕ → ℕ → Option (List Bytes) → CurrentPayloadInner S
  receiving d total expected got w = record {
    payload_digest = d;
    expected_length = expected;
    received_length = got;
    total_length = total;
    offset = 0;
    writer = w;
  }

  abbrev pub payload : TargetId → S.Digest → ℕ → ℕ → ℕ → Option (List Bytes) → EntryState S
  payload target d total expected got w =
      some (record { target = target; current_payload = some (receiving d total expected got w) })
